-- ===== src/Tests/Files.antt =====
-- Examples for linux/proc/process, on one file and on a stream of words.
use process_cpp.Prelude.{
  ◌==◌, leb_ℤ, ◌&&◌, if◌then◌else◌, ℕ, ℤ, pos, negsuc, ◌≡◌, refl, Bool, true, false, Option, none,
  some, List, [], ◌∷◌, ◌⊎◌,
}
use process_cpp.Effect.{ok, throw, logic_error}
use process_cpp.Text.{Str}
use process_cpp.Process.{Process}
use process_cpp.Proc.Oom.{OomConstants, FileCalls, OomScoreAdj, write_score_adj, read_score_adj}
use process_cpp.Proc.Oom.Files.{FileLaws, read_score_adj-write_score_adj}
use process_cpp.Proc.Stat.{Stat, Extraction, Extractions, read_stat}
use process_cpp.Proc.Stat.Order.{Printer, Printers, IsPrintable, put_stat, read_stat-put_stat}

-- The constants of linux/oom.h.
abbrev linux : OomConstants
linux = record {
  oom_disable = negsuc 16;
  oom_adjust_min = negsuc 15;
  oom_adjust_max = pos 15;
  oom_score_adj_min = negsuc 999;
  oom_score_adj_max = pos 1000;
}

-- A file system with one file, whatever its path, with integers of one byte as their texts.
abbrev print_sign : ℤ → Str
print_sign (pos n) = 43 ∷ n ∷ []
print_sign (negsuc n) = 45 ∷ n ∷ []

abbrev extract_sign : Str → ℤ → ℤ
extract_sign (sign ∷ n ∷ []) old = if sign == 43 then pos n else negsuc n
extract_sign _ old = old

abbrev one_file : FileCalls (Option Str)
one_file = record {
  text_of = λ path w. w;
  write_text = λ path text w. some text;
  print = print_sign;
  extract = extract_sign;
}

extract_sign-print_sign : (v old : ℤ) → extract_sign (print_sign v) old ≡ v
extract_sign-print_sign (pos n) old = refl
extract_sign-print_sign (negsuc n) old = refl

abbrev one_file_laws : FileLaws one_file (λ path w. Unit {0})
one_file_laws = record {
  text_of-write_text = λ path text w keeps. refl;
  extract-print = extract_sign-print_sign;
}

abbrev init : Process
init = record { signalable = record { kill_pid = pos 1 }; pid = pos 1 }

abbrev wanted : OomScoreAdj
wanted = record { score_adj_value = negsuc 499 }

abbrev before : OomScoreAdj
before = record { score_adj_value = pos 0 }

read_score_adj-write_score_adj_example :
    (((leb_ℤ (negsuc 999) (negsuc 499) && leb_ℤ (negsuc 499) (pos 1000)) ≡ true)
      × ((write_score_adj one_file linux init wanted none).0 ≡ ok tt)
      × (read_score_adj one_file init before (write_score_adj one_file linux init wanted none).1
          ≡ wanted))
    ⊎ (((leb_ℤ (negsuc 999) (negsuc 499) && leb_ℤ (negsuc 499) (pos 1000)) ≡ false)
        × ((write_score_adj one_file linux init wanted none).0 ≡ throw logic_error)
        × (read_score_adj one_file init before (write_score_adj one_file linux init wanted none).1
            ≡ read_score_adj one_file init before none))
read_score_adj-write_score_adj_example =
    read_score_adj-write_score_adj one_file one_file_laws linux init wanted before none tt

-- The line of /proc/<pid>/stat as its words.
data Word : Type 0 where
  signed : ℤ → Word
  unsigned : ℕ → Word
  name : Str → Word

abbrev take_signed : Extraction (List Word) ℤ
take_signed old (signed v ∷ s) = (v, s)
take_signed old s = (old, s)

abbrev take_unsigned : Extraction (List Word) ℕ
take_unsigned old (unsigned v ∷ s) = (v, s)
take_unsigned old s = (old, s)

abbrev take_name : Extraction (List Word) Str
take_name old (name v ∷ s) = (v, s)
take_name old s = (old, s)

abbrev of_words : Extractions (List Word)
of_words = record {
  int = take_signed;
  uint = take_unsigned;
  long = take_signed;
  ulong = take_unsigned;
  ullong = take_unsigned;
  str = take_name;
  char = take_signed;
}

abbrev in_range : ℤ → Bool
in_range v = leb_ℤ (negsuc 127) v && leb_ℤ v (pos 127)

-- A text that is not empty and has no blank.
abbrev has_no_blank : Str → Bool
has_no_blank [] = false
has_no_blank (x ∷ []) = if x == 32 then false else true
has_no_blank (x ∷ rest) = let after = has_no_blank rest in if x == 32 then false else after

abbrev put_signed : Printer take_signed
put_signed = record {
  prints = in_range;
  put = λ v s. signed v ∷ s;
  extract-put = λ v old s h. refl;
}

abbrev put_unsigned : Printer take_unsigned
put_unsigned = record {
  prints = λ n. leb_ℤ (pos n) (pos 255);
  put = λ v s. unsigned v ∷ s;
  extract-put = λ v old s h. refl;
}

abbrev put_name : Printer take_name
put_name = record {
  prints = has_no_blank;
  put = λ v s. name v ∷ s;
  extract-put = λ v old s h. refl;
}

abbrev printers : Printers of_words
printers = record {
  int = put_signed;
  uint = put_unsigned;
  long = put_signed;
  ulong = put_unsigned;
  ullong = put_unsigned;
  str = put_name;
  char = put_signed;
}

abbrev filled : ℤ → ℕ → Stat
filled z n = record {
  pid = z;
  executable = n ∷ [];
  state = z;
  parent = z;
  process_group = z;
  session_id = z;
  tty_nr = z;
  controlling_process_group = z;
  kernel_flags = n;
  minor_faults_count = n;
  minor_faults_count_by_children = n;
  major_faults_count = n;
  major_faults_count_by_children = n;
  time = record { user = n; system = n; user_for_children = n; system_for_children = n };
  priority = z;
  nice = z;
  thread_count = z;
  time_before_next_sig_alarm = z;
  start_time = z;
  size = record { virt = n; resident_set = n; resident_set_limit = n };
  addresses = record {
    start_code = n;
    end_code = n;
    start_stack = n;
    stack_pointer = n;
    instruction_pointer = n;
  };
  signals = record { pending = n; blocked = n; ignored = n; caught = n };
  channel = n;
  swap_count = n;
  swap_count_children = n;
  exit_signal = z;
  cpu_count = z;
  realtime_priority = n;
  scheduling_policy = n;
  aggregated_block_io_delays = n;
  guest_time = n;
  guest_time_children = n;
}

filled_7_9 : IsPrintable of_words printers (filled (pos 7) 9)
filled_7_9 = record {
  of_pid = refl;
  of_executable = refl;
  of_state = refl;
  of_parent = refl;
  of_process_group = refl;
  of_session_id = refl;
  of_tty_nr = refl;
  of_controlling_process_group = refl;
  of_kernel_flags = refl;
  of_minor_faults_count = refl;
  of_minor_faults_count_by_children = refl;
  of_major_faults_count = refl;
  of_major_faults_count_by_children = refl;
  of_time_user = refl;
  of_time_system = refl;
  of_time_user_for_children = refl;
  of_time_system_for_children = refl;
  of_priority = refl;
  of_nice = refl;
  of_thread_count = refl;
  of_time_before_next_sig_alarm = refl;
  of_start_time = refl;
  of_size_virt = refl;
  of_size_resident_set = refl;
  of_size_resident_set_limit = refl;
  of_addresses_start_code = refl;
  of_addresses_end_code = refl;
  of_addresses_start_stack = refl;
  of_addresses_stack_pointer = refl;
  of_addresses_instruction_pointer = refl;
  of_signals_pending = refl;
  of_signals_blocked = refl;
  of_signals_ignored = refl;
  of_signals_caught = refl;
  of_channel = refl;
  of_swap_count = refl;
  of_swap_count_children = refl;
  of_exit_signal = refl;
  of_cpu_count = refl;
  of_realtime_priority = refl;
  of_scheduling_policy = refl;
  of_aggregated_block_io_delays = refl;
  of_guest_time = refl;
  of_guest_time_children = refl;
}

read_stat-put_stat_example :
    read_stat of_words (pos 0) (filled (pos 0) 0) (put_stat of_words printers (filled (pos 7) 9) [])
    ≡ (filled (pos 7) 9, [])
read_stat-put_stat_example =
    read_stat-put_stat of_words printers (filled (pos 7) 9) (filled (pos 0) 0) (pos 0) [] filled_7_9
