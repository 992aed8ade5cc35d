-- ===== src/Custom/System.antt =====
-- dfsan_custom.cc: functions that ask the system, and take the labels off what they fill in.
use kirenenko.Prelude.{ℕ, zero, suc, ◌+◌, ◌*◌, ◌^◌, Bool, not, ◌&&◌, ◌==◌, ltb, if◌then◌else◌}
use kirenenko.Run.{Run, ok, pure, ◌>>=◌, ◌>>◌}
use kirenenko.Operators.{Opcodes}
use kirenenko.Shadow.{dfsan_read_label}
use kirenenko.Process.{
  Libc, Process, Call, SystemType, libc, labels, strlen, minus_one_32, minus_one_64,
}
use kirenenko.Custom.{set_label}

module _ {L : Libc} where
  -- The call `c`, then the labels of `size` bytes at `addr` go if the answer passes `succeeded`.
  unfoldable pub clear_after : Call → (ℕ → Bool) → ℕ → ℕ → Run (Process L) (ℕ × ℕ)
  clear_after c succeeded addr size = do
    ret ← libc c
    if succeeded ret then set_label 0 addr size else pure tt
    pure (ret, 0)

  -- As before, for the string at the address that the answer gives or at `addr`.
  unfoldable pub clear_string : Call → (ℕ → Bool) → (ℕ → ℕ) → (ℕ → ℕ) → Run (Process L) (ℕ × ℕ)
  clear_string c succeeded addr ret_label = do
    ret ← libc c
    λ p. if succeeded ret then set_label 0 (addr ret) (strlen (addr ret) p + 1) p else ok tt p
    pure (ret, if succeeded ret then ret_label ret else 0)

  -- A pointer that may be null.
  abbrev pub clear_at : ℕ → SystemType → Run (Process L) (Unit {0})
  clear_at addr t = if not (addr == 0) then set_label 0 addr (L.sizeof t) else pure tt

  unfoldable pub dfsw_clock_gettime : ℕ → ℕ → Run (Process L) (ℕ × ℕ)
  dfsw_clock_gettime clk_id tp =
      clear_after (Call.clock_gettime clk_id tp) (λ ret. ret == 0) tp
        (L.sizeof SystemType.time_spec)

  unfoldable pub dfsw_getrlimit : ℕ → ℕ → Run (Process L) (ℕ × ℕ)
  dfsw_getrlimit resource rlim =
      clear_after (Call.getrlimit resource rlim) (λ ret. ret == 0) rlim
        (L.sizeof SystemType.resource_limit)

  unfoldable pub dfsw_getrusage : ℕ → ℕ → Run (Process L) (ℕ × ℕ)
  dfsw_getrusage who usage =
      clear_after (Call.getrusage who usage) (λ ret. ret == 0) usage
        (L.sizeof SystemType.resource_usage)

  unfoldable pub dfsw_sched_getaffinity : ℕ → ℕ → ℕ → Run (Process L) (ℕ × ℕ)
  dfsw_sched_getaffinity pid cpusetsize mask =
      clear_after (Call.sched_getaffinity pid cpusetsize mask) (λ ret. ret == 0) mask cpusetsize

  unfoldable pub dfsw_socketpair : ℕ → ℕ → ℕ → ℕ → Run (Process L) (ℕ × ℕ)
  dfsw_socketpair domain type protocol sv =
      clear_after (Call.socketpair domain type protocol sv) (λ ret. ret == 0) sv
        (L.sizeof SystemType.an_int * 2)

  unfoldable pub dfsw_nanosleep : ℕ → ℕ → Run (Process L) (ℕ × ℕ)
  dfsw_nanosleep req rem =
      clear_after (Call.nanosleep req rem) (λ ret. ret == minus_one_32) rem
        (L.sizeof SystemType.time_spec)

  unfoldable pub dfsw_time : ℕ → Run (Process L) (ℕ × ℕ)
  dfsw_time t =
      clear_after (Call.time t) (λ ret. not (ret == minus_one_64) && not (t == 0)) t
        (L.sizeof SystemType.time_value)

  unfoldable pub dfsw_getcwd : ℕ → ℕ → ℕ → Run (Process L) (ℕ × ℕ)
  dfsw_getcwd buf size buf_label =
      clear_string (Call.getcwd buf size) (λ ret. not (ret == 0)) (λ ret. ret) (λ ret. buf_label)

  unfoldable pub dfsw_get_current_dir_name : Run (Process L) (ℕ × ℕ)
  dfsw_get_current_dir_name =
      clear_string Call.get_current_dir_name (λ ret. not (ret == 0)) (λ ret. ret) (λ ret. 0)

  unfoldable pub dfsw_gethostname : ℕ → ℕ → Run (Process L) (ℕ × ℕ)
  dfsw_gethostname name len =
      clear_string (Call.gethostname name len) (λ ret. ret == 0) (λ ret. name) (λ ret. 0)

  -- `result` loses its label on failure, too.
  unfoldable pub dfsw_getpwuid_r : ℕ → ℕ → ℕ → ℕ → ℕ → Run (Process L) (ℕ × ℕ)
  dfsw_getpwuid_r uid pwd buf buflen result = do
    ret ← libc (Call.getpwuid_r uid pwd buf buflen result)
    λ p.
        if ret == 0
        then (do set_label 0 pwd (L.sizeof SystemType.password); set_label 0 buf (strlen buf p + 1))
            p
        else ok tt p
    set_label 0 result (L.sizeof SystemType.a_pointer)
    pure (ret, 0)

  -- The loop over the descriptors, from the last one down.
  unfoldable pub clear_events : ℕ → ℕ → Run (Process L) (Unit {0})
  clear_events fds zero = pure tt
  clear_events fds (suc nfds) = do
    set_label 0 (fds + nfds * L.sizeof SystemType.poll_fd + L.offset_of_revents)
        (L.sizeof SystemType.poll_events)
    clear_events fds nfds

  unfoldable pub dfsw_poll : ℕ → ℕ → ℕ → Run (Process L) (ℕ × ℕ)
  dfsw_poll fds nfds timeout = do
    ret ← libc (Call.poll fds nfds timeout)
    if ltb ret (2 ^ 31) then clear_events fds nfds else pure tt
    pure (ret, 0)

  -- `timeout` is not tested for null.
  unfoldable pub dfsw_select : ℕ → ℕ → ℕ → ℕ → ℕ → Run (Process L) (ℕ × ℕ)
  dfsw_select nfds readfds writefds exceptfds timeout = do
    ret ← libc (Call.select nfds readfds writefds exceptfds timeout)
    clear_at readfds SystemType.descriptor_set
    clear_at writefds SystemType.descriptor_set
    clear_at exceptfds SystemType.descriptor_set
    set_label 0 timeout (L.sizeof SystemType.time_val)
    pure (ret, 0)

  unfoldable pub dfsw_sigemptyset : ℕ → Run (Process L) (ℕ × ℕ)
  dfsw_sigemptyset set = do
    ret ← libc (Call.sigemptyset set)
    set_label 0 set (L.sizeof SystemType.signal_set)
    pure (ret, 0)

  unfoldable pub dfsw_sigaction : ℕ → ℕ → ℕ → Run (Process L) (ℕ × ℕ)
  dfsw_sigaction signum act oldact = do
    ret ← libc (Call.sigaction signum act oldact)
    clear_at oldact SystemType.signal_action
    pure (ret, 0)

  unfoldable pub dfsw_gettimeofday : ℕ → ℕ → Run (Process L) (ℕ × ℕ)
  dfsw_gettimeofday tv tz = do
    ret ← libc (Call.gettimeofday tv tz)
    clear_at tv SystemType.time_val
    clear_at tz SystemType.time_zone
    pure (ret, 0)

module _ ⦃ops : Opcodes⦄ {L : Libc} where
  -- The label of the `size` bytes at `from`, for the bytes at `addr`.
  unfoldable pub pass_label : ℕ → ℕ → ℕ → ℕ → Run (Process L) (Unit {0})
  pass_label from size addr count = do
    label ← labels (dfsan_read_label size from size)
    set_label label addr count

  unfoldable pub dfsw_ctime_r : ℕ → ℕ → ℕ → Run (Process L) (ℕ × ℕ)
  dfsw_ctime_r timep buf buf_label = do
    ret ← libc (Call.ctime_r timep buf)
    λ p.
        if not (ret == 0)
        then pass_label timep (L.sizeof SystemType.time_value) buf (strlen buf p + 1) p
        else ok tt p
    pure (ret, if not (ret == 0) then buf_label else 0)

  unfoldable pub dfsw_localtime_r : ℕ → ℕ → ℕ → Run (Process L) (ℕ × ℕ)
  dfsw_localtime_r timep result result_label = do
    ret ← libc (Call.localtime_r timep result)
    if not (ret == 0)
        then pass_label timep (L.sizeof SystemType.time_value) result
            (L.sizeof SystemType.broken_down_time)
        else pure tt
    pure (ret, if not (ret == 0) then result_label else 0)

  unfoldable pub dfsw_inet_pton : ℕ → ℕ → ℕ → Run (Process L) (ℕ × ℕ)
  dfsw_inet_pton af src dst = do
    ret ← libc (Call.inet_pton af src dst)
    λ p.
        if ret == 1
        then pass_label src (strlen src p + 1) dst
            (L.sizeof (
              if af == L.af_inet
              then SystemType.internet_address
              else SystemType.internet_address_6))
            p
        else ok tt p
    pure (ret, 0)
