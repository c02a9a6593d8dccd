-- ===== src/Proc/Stat.antt =====
-- src/core/posix/linux/proc/process/stat.cpp, with the declarations of
-- include/core/posix/linux/proc/process/stat.h and state.h: the fields of /proc/<pid>/stat.
pub mod Order
use process_cpp.Prelude.{ℕ, ℤ, [], ◌∷◌, ◌++◌}
use process_cpp.Process.{Process}
use process_cpp.Text.{Str}

-- enum class State: the code of a character, or -1.
abbrev pub State : Type 0
State = ℤ

-- The struct `time` of Stat.
pub record Time : Type 0 where
  pub user : ℕ
  pub system : ℕ
  pub user_for_children : ℕ
  pub system_for_children : ℕ

-- The struct `size` of Stat.
pub record Size : Type 0 where
  pub virt : ℕ
  pub resident_set : ℕ
  pub resident_set_limit : ℕ

-- The struct `addresses` of Stat.
pub record Addresses : Type 0 where
  pub start_code : ℕ
  pub end_code : ℕ
  pub start_stack : ℕ
  pub stack_pointer : ℕ
  pub instruction_pointer : ℕ

-- The struct `signals` of Stat.
pub record Signals : Type 0 where
  pub pending : ℕ
  pub blocked : ℕ
  pub ignored : ℕ
  pub caught : ℕ

-- struct Stat, with its fields in the order of their declaration.
pub record Stat : Type 0 where
  pub pid : ℤ
  pub executable : Str
  pub state : State
  pub parent : ℤ
  pub process_group : ℤ
  pub session_id : ℤ
  pub tty_nr : ℤ
  pub controlling_process_group : ℤ
  pub kernel_flags : ℕ
  pub minor_faults_count : ℕ
  pub minor_faults_count_by_children : ℕ
  pub major_faults_count : ℕ
  pub major_faults_count_by_children : ℕ
  pub time : Time
  pub priority : ℤ
  pub nice : ℤ
  pub thread_count : ℤ
  pub time_before_next_sig_alarm : ℤ
  pub start_time : ℤ
  pub size : Size
  pub addresses : Addresses
  pub signals : Signals
  pub channel : ℕ
  pub swap_count : ℕ
  pub swap_count_children : ℕ
  pub exit_signal : ℤ
  pub cpu_count : ℤ
  pub realtime_priority : ℕ
  pub scheduling_policy : ℕ
  pub aggregated_block_io_delays : ℕ
  pub guest_time : ℕ
  pub guest_time_children : ℕ

-- "/proc/"
abbrev pub proc_slash : Str
proc_slash = 47 ∷ 112 ∷ 114 ∷ 111 ∷ 99 ∷ 47 ∷ []

-- "/stat"
abbrev pub slash_stat : Str
slash_stat = 47 ∷ 115 ∷ 116 ∷ 97 ∷ 116 ∷ []

-- The formatted extraction `in >> x` of a type `T` from a stream: the new value of `x`, which may depend
-- on the old one, and the stream behind it.
abbrev pub Extraction : Type 0 → Type 0 → Type 0
Extraction S T = T → S → T × S

-- The extractions of the types that occur.
pub record Extractions (S : Type 0) : Type 0 where
  pub int : Extraction S ℤ
  pub uint : Extraction S ℕ
  pub long : Extraction S ℤ
  pub ulong : Extraction S ℕ
  pub ullong : Extraction S ℕ
  pub str : Extraction S Str
  pub char : Extraction S ℤ

abbrev pub Reader : Type 0 → Type 0 → Type 0
Reader S A = S → A × S

infixl 5 ◌>>=◌
abbrev pub ◌>>=◌ : {S A B : Type 0} → Reader S A → (A → Reader S B) → Reader S B
◌>>=◌ m f s = let (a, s') = m s in f a s'

module _ {S : Type 0} (x : Extractions S) where
  open x use {int, uint, long, ulong, ullong, str, char}

  -- operator>> for State: `char c; in >> c;` and a cast. The variable `c` is not initialised: what it
  -- holds before is the argument `c`.
  unfoldable pub read_state : ℤ → Reader S State
  read_state c s = char c s

  -- operator>> for Stat.
  unfoldable pub read_stat : ℤ → Stat → Reader S Stat
  unfolding read_state
  read_stat c stat = do
    pid ← int stat.pid
    executable ← str stat.executable
    state ← read_state c
    parent ← int stat.parent
    process_group ← int stat.process_group
    session_id ← int stat.session_id
    tty_nr ← int stat.tty_nr
    controlling_process_group ← int stat.controlling_process_group
    kernel_flags ← uint stat.kernel_flags
    minor_faults_count ← ulong stat.minor_faults_count
    minor_faults_count_by_children ← ulong stat.minor_faults_count_by_children
    major_faults_count ← ulong stat.major_faults_count
    major_faults_count_by_children ← ulong stat.major_faults_count_by_children
    time_user ← ulong stat.time.user
    time_system ← ulong stat.time.system
    time_user_for_children ← ulong stat.time.user_for_children
    time_system_for_children ← ulong stat.time.system_for_children
    priority ← long stat.priority
    nice ← long stat.nice
    thread_count ← long stat.thread_count
    time_before_next_sig_alarm ← long stat.time_before_next_sig_alarm
    start_time ← long stat.start_time
    size_virt ← ulong stat.size.virt
    size_resident_set ← ulong stat.size.resident_set
    size_resident_set_limit ← ulong stat.size.resident_set_limit
    addresses_start_code ← ulong stat.addresses.start_code
    addresses_end_code ← ulong stat.addresses.end_code
    addresses_start_stack ← ulong stat.addresses.start_stack
    addresses_stack_pointer ← ulong stat.addresses.stack_pointer
    addresses_instruction_pointer ← ulong stat.addresses.instruction_pointer
    signals_pending ← ulong stat.signals.pending
    signals_blocked ← ulong stat.signals.blocked
    signals_ignored ← ulong stat.signals.ignored
    signals_caught ← ulong stat.signals.caught
    channel ← ulong stat.channel
    swap_count ← ulong stat.swap_count
    swap_count_children ← ulong stat.swap_count_children
    exit_signal ← int stat.exit_signal
    cpu_count ← int stat.cpu_count
    realtime_priority ← uint stat.realtime_priority
    scheduling_policy ← uint stat.scheduling_policy
    aggregated_block_io_delays ← ullong stat.aggregated_block_io_delays
    guest_time ← ulong stat.guest_time
    guest_time_children ← ulong stat.guest_time_children
    λ s. (
      record {
        pid = pid;
        executable = executable;
        state = state;
        parent = parent;
        process_group = process_group;
        session_id = session_id;
        tty_nr = tty_nr;
        controlling_process_group = controlling_process_group;
        kernel_flags = kernel_flags;
        minor_faults_count = minor_faults_count;
        minor_faults_count_by_children = minor_faults_count_by_children;
        major_faults_count = major_faults_count;
        major_faults_count_by_children = major_faults_count_by_children;
        time = record {
          user = time_user;
          system = time_system;
          user_for_children = time_user_for_children;
          system_for_children = time_system_for_children;
        };
        priority = priority;
        nice = nice;
        thread_count = thread_count;
        time_before_next_sig_alarm = time_before_next_sig_alarm;
        start_time = start_time;
        size = record {
          virt = size_virt;
          resident_set = size_resident_set;
          resident_set_limit = size_resident_set_limit;
        };
        addresses = record {
          start_code = addresses_start_code;
          end_code = addresses_end_code;
          start_stack = addresses_start_stack;
          stack_pointer = addresses_stack_pointer;
          instruction_pointer = addresses_instruction_pointer;
        };
        signals = record {
          pending = signals_pending;
          blocked = signals_blocked;
          ignored = signals_ignored;
          caught = signals_caught;
        };
        channel = channel;
        swap_count = swap_count;
        swap_count_children = swap_count_children;
        exit_signal = exit_signal;
        cpu_count = cpu_count;
        realtime_priority = realtime_priority;
        scheduling_policy = scheduling_policy;
        aggregated_block_io_delays = aggregated_block_io_delays;
        guest_time = guest_time;
        guest_time_children = guest_time_children;
      },
      s,
    )

  -- operator>> for a Process and a Stat. `open_file` gives the stream of a file, also where it cannot be
  -- opened, and `print` is what a stream prints for a number.
  unfoldable pub read_process : (Str → S) → (ℤ → Str) → ℤ → Process → Stat → Stat
  unfolding read_stat
  read_process open_file print c process stat =
      (read_stat c stat (open_file (proc_slash ++ print process.pid ++ slash_stat))).0
