-- ===== src/Proc/Stat/Order.antt =====
-- The order of the fields of /proc/<pid>/stat.
use process_cpp.Prelude.{ℤ, ◌≡◌, refl, Bool, true}
use process_cpp.Proc.Stat.{Stat, Extraction, Extractions, read_stat}

-- Writing a value in front of what is left of a stream, so that extracting it gives the value and the
-- rest back: what the standard library does with a value of the type's range, or a text that is not
-- empty and has no white space, printed with a blank behind it. `S` is what is left of a stream up to
-- white space at its front, which every one of these extractions skips.
pub record Printer {S T : Type 0} (x : Extraction S T) : Type 0 where
  pub prints : T → Bool
  pub put : T → S → S
  pub extract-put : (v old : T) (s : S) → prints v ≡ true → x old (put v s) ≡ (v, s)

pub record Printers {S : Type 0} (x : Extractions S) : Type 0 where
  pub int : Printer x.int
  pub uint : Printer x.uint
  pub long : Printer x.long
  pub ulong : Printer x.ulong
  pub ullong : Printer x.ullong
  pub str : Printer x.str
  pub char : Printer x.char

module _ {S : Type 0} (x : Extractions S) (p : Printers x) where
  -- The line of a process: its fields in the order in which the manual page of proc lists them, which is
  -- the order of their declaration.
  pub put_stat : Stat → S → S
  put_stat v s = p.int.put v.pid (
      p.str.put v.executable (
        p.char.put v.state (
          p.int.put v.parent (
            p.int.put v.process_group (
              p.int.put v.session_id (
                p.int.put v.tty_nr (
                  p.int.put v.controlling_process_group (
                    p.uint.put v.kernel_flags (
                      p.ulong.put v.minor_faults_count (
                        p.ulong.put v.minor_faults_count_by_children (
                          p.ulong.put v.major_faults_count (
                            p.ulong.put v.major_faults_count_by_children (
                              p.ulong.put v.time.user (
                                p.ulong.put v.time.system (
                                  p.ulong.put v.time.user_for_children (
                                    p.ulong.put v.time.system_for_children (
                                      p.long.put v.priority (
                                        p.long.put v.nice (
                                          p.long.put v.thread_count (
                                            p.long.put v.time_before_next_sig_alarm (
                                              p.long.put v.start_time (
                                                p.ulong.put v.size.virt (
                                                  p.ulong.put v.size.resident_set (
                                                    p.ulong.put v.size.resident_set_limit (
                                                      p.ulong.put v.addresses.start_code (
                                                        p.ulong.put v.addresses.end_code (
                                                          p.ulong.put v.addresses.start_stack (
                                                            p.ulong.put v.addresses.stack_pointer (
                                                            p.ulong.put
                                                            v.addresses.instruction_pointer
                                                            (p.ulong.put v.signals.pending (
                                                            p.ulong.put v.signals.blocked (
                                                            p.ulong.put v.signals.ignored (
                                                            p.ulong.put v.signals.caught (
                                                            p.ulong.put v.channel (
                                                            p.ulong.put v.swap_count (
                                                            p.ulong.put v.swap_count_children (
                                                            p.int.put v.exit_signal (
                                                            p.int.put v.cpu_count (
                                                            p.uint.put v.realtime_priority (
                                                            p.uint.put v.scheduling_policy (
                                                            p.ullong.put
                                                            v.aggregated_block_io_delays
                                                            (p.ulong.put v.guest_time
                                                            (p.ulong.put v.guest_time_children s))))
                                                            )))))))))))))))))))))))))))))))))))))))

  -- Each field of the Stat has a value that can be printed.
  pub record IsPrintable (v : Stat) : Type 0 where
    pub of_pid : p.int.prints v.pid ≡ true
    pub of_executable : p.str.prints v.executable ≡ true
    pub of_state : p.char.prints v.state ≡ true
    pub of_parent : p.int.prints v.parent ≡ true
    pub of_process_group : p.int.prints v.process_group ≡ true
    pub of_session_id : p.int.prints v.session_id ≡ true
    pub of_tty_nr : p.int.prints v.tty_nr ≡ true
    pub of_controlling_process_group : p.int.prints v.controlling_process_group ≡ true
    pub of_kernel_flags : p.uint.prints v.kernel_flags ≡ true
    pub of_minor_faults_count : p.ulong.prints v.minor_faults_count ≡ true
    pub of_minor_faults_count_by_children : p.ulong.prints v.minor_faults_count_by_children ≡ true
    pub of_major_faults_count : p.ulong.prints v.major_faults_count ≡ true
    pub of_major_faults_count_by_children : p.ulong.prints v.major_faults_count_by_children ≡ true
    pub of_time_user : p.ulong.prints v.time.user ≡ true
    pub of_time_system : p.ulong.prints v.time.system ≡ true
    pub of_time_user_for_children : p.ulong.prints v.time.user_for_children ≡ true
    pub of_time_system_for_children : p.ulong.prints v.time.system_for_children ≡ true
    pub of_priority : p.long.prints v.priority ≡ true
    pub of_nice : p.long.prints v.nice ≡ true
    pub of_thread_count : p.long.prints v.thread_count ≡ true
    pub of_time_before_next_sig_alarm : p.long.prints v.time_before_next_sig_alarm ≡ true
    pub of_start_time : p.long.prints v.start_time ≡ true
    pub of_size_virt : p.ulong.prints v.size.virt ≡ true
    pub of_size_resident_set : p.ulong.prints v.size.resident_set ≡ true
    pub of_size_resident_set_limit : p.ulong.prints v.size.resident_set_limit ≡ true
    pub of_addresses_start_code : p.ulong.prints v.addresses.start_code ≡ true
    pub of_addresses_end_code : p.ulong.prints v.addresses.end_code ≡ true
    pub of_addresses_start_stack : p.ulong.prints v.addresses.start_stack ≡ true
    pub of_addresses_stack_pointer : p.ulong.prints v.addresses.stack_pointer ≡ true
    pub of_addresses_instruction_pointer : p.ulong.prints v.addresses.instruction_pointer ≡ true
    pub of_signals_pending : p.ulong.prints v.signals.pending ≡ true
    pub of_signals_blocked : p.ulong.prints v.signals.blocked ≡ true
    pub of_signals_ignored : p.ulong.prints v.signals.ignored ≡ true
    pub of_signals_caught : p.ulong.prints v.signals.caught ≡ true
    pub of_channel : p.ulong.prints v.channel ≡ true
    pub of_swap_count : p.ulong.prints v.swap_count ≡ true
    pub of_swap_count_children : p.ulong.prints v.swap_count_children ≡ true
    pub of_exit_signal : p.int.prints v.exit_signal ≡ true
    pub of_cpu_count : p.int.prints v.cpu_count ≡ true
    pub of_realtime_priority : p.uint.prints v.realtime_priority ≡ true
    pub of_scheduling_policy : p.uint.prints v.scheduling_policy ≡ true
    pub of_aggregated_block_io_delays : p.ullong.prints v.aggregated_block_io_delays ≡ true
    pub of_guest_time : p.ulong.prints v.guest_time ≡ true
    pub of_guest_time_children : p.ulong.prints v.guest_time_children ≡ true

  -- If extracting the printed value of a field gives it back and leaves the rest of the stream, for the
  -- values that can be printed, then reading the printed line of a Stat of such values gives every
  -- field the value that was printed for it, whatever the Stat held before, and leaves the stream
  -- behind the line.
  pub read_stat-put_stat :
      (v old : Stat) (c : ℤ) (s : S) → IsPrintable v → read_stat x c old (put_stat v s) ≡ (v, s)
  unfolding read_stat put_stat
  read_stat-put_stat v old c s h =
      rw
        (
          p.int.extract-put v.pid _ _ h.of_pid,
          p.str.extract-put v.executable _ _ h.of_executable,
          p.char.extract-put v.state _ _ h.of_state,
          p.int.extract-put v.parent _ _ h.of_parent,
          p.int.extract-put v.process_group _ _ h.of_process_group,
          p.int.extract-put v.session_id _ _ h.of_session_id,
          p.int.extract-put v.tty_nr _ _ h.of_tty_nr,
          p.int.extract-put v.controlling_process_group _ _ h.of_controlling_process_group,
          p.uint.extract-put v.kernel_flags _ _ h.of_kernel_flags,
          p.ulong.extract-put v.minor_faults_count _ _ h.of_minor_faults_count,
          p.ulong.extract-put v.minor_faults_count_by_children _ _
              h.of_minor_faults_count_by_children,
          p.ulong.extract-put v.major_faults_count _ _ h.of_major_faults_count,
          p.ulong.extract-put v.major_faults_count_by_children _ _
              h.of_major_faults_count_by_children,
          p.ulong.extract-put v.time.user _ _ h.of_time_user,
          p.ulong.extract-put v.time.system _ _ h.of_time_system,
          p.ulong.extract-put v.time.user_for_children _ _ h.of_time_user_for_children,
          p.ulong.extract-put v.time.system_for_children _ _ h.of_time_system_for_children,
          p.long.extract-put v.priority _ _ h.of_priority,
          p.long.extract-put v.nice _ _ h.of_nice,
          p.long.extract-put v.thread_count _ _ h.of_thread_count,
          p.long.extract-put v.time_before_next_sig_alarm _ _ h.of_time_before_next_sig_alarm,
          p.long.extract-put v.start_time _ _ h.of_start_time,
          p.ulong.extract-put v.size.virt _ _ h.of_size_virt,
          p.ulong.extract-put v.size.resident_set _ _ h.of_size_resident_set,
          p.ulong.extract-put v.size.resident_set_limit _ _ h.of_size_resident_set_limit,
          p.ulong.extract-put v.addresses.start_code _ _ h.of_addresses_start_code,
          p.ulong.extract-put v.addresses.end_code _ _ h.of_addresses_end_code,
          p.ulong.extract-put v.addresses.start_stack _ _ h.of_addresses_start_stack,
          p.ulong.extract-put v.addresses.stack_pointer _ _ h.of_addresses_stack_pointer,
          p.ulong.extract-put v.addresses.instruction_pointer _ _
              h.of_addresses_instruction_pointer,
          p.ulong.extract-put v.signals.pending _ _ h.of_signals_pending,
          p.ulong.extract-put v.signals.blocked _ _ h.of_signals_blocked,
          p.ulong.extract-put v.signals.ignored _ _ h.of_signals_ignored,
          p.ulong.extract-put v.signals.caught _ _ h.of_signals_caught,
          p.ulong.extract-put v.channel _ _ h.of_channel,
          p.ulong.extract-put v.swap_count _ _ h.of_swap_count,
          p.ulong.extract-put v.swap_count_children _ _ h.of_swap_count_children,
          p.int.extract-put v.exit_signal _ _ h.of_exit_signal,
          p.int.extract-put v.cpu_count _ _ h.of_cpu_count,
          p.uint.extract-put v.realtime_priority _ _ h.of_realtime_priority,
          p.uint.extract-put v.scheduling_policy _ _ h.of_scheduling_policy,
          p.ullong.extract-put v.aggregated_block_io_delays _ _ h.of_aggregated_block_io_delays,
          p.ulong.extract-put v.guest_time _ _ h.of_guest_time,
          p.ulong.extract-put v.guest_time_children _ _ h.of_guest_time_children,
        )
        refl
