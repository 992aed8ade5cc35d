-- ===== src/Custom/Cleared.antt =====
-- dfsan_custom.cc: functions that take the labels off what the system filled in, if it did.
use kirenenko.Prelude.{
  ℕ, ◌+◌, ◌-◌, ◌*◌, ◌%◌, ◌≤◌, ◌<◌, ◌≡◌, ◌≢◌, ◌⊎◌, Bool, true, false, not, ◌&&◌, ◌==◌, leb, ltb,
  if◌then◌else◌,
}
use kirenenko.Run.{Run}
use kirenenko.Mapping.{shadow_for}
use kirenenko.Runtime.{Runtime}
use kirenenko.Process.{Libc, Process, Call, SystemType, minus_one_32, minus_one_64}
use kirenenko.Custom.Maps.{dfsw_munmap}
use kirenenko.Custom.System.{
  dfsw_clock_gettime, dfsw_getrlimit, dfsw_getrusage, dfsw_sched_getaffinity, dfsw_socketpair,
  dfsw_nanosleep, dfsw_time,
}

-- The shadow with a label at each of `n` places from `ls` on.
unfoldable with_labels : ℕ → ℕ → ℕ → (ℕ → ℕ) → ℕ → ℕ
with_labels label ls n shadow a =
    if leb ls a && ltb a (ls + 4 * n) && (a - ls) % 4 == 0 then label else shadow a

-- `n` bytes of the application.
abbrev pub IsBlock : ℕ → ℕ → Type 0
IsBlock addr n = (0x700000000000 ≤ addr) × (addr + n ≤ 0x800000000000)

module _ {L : Libc} where
  -- What a call answers, and the process behind it.
  abbrev pub answer_of : Call → Process L → ℕ
  answer_of c p = (L.call c p.os p.runtime.memory).0

  abbrev pub after_call : Call → Process L → Process L
  after_call c p = record p {
    os = (L.call c p.os p.runtime.memory).1;
    runtime = record p.runtime { memory = (L.call c p.os p.runtime.memory).2 };
  }

  -- The `n` bytes at `addr` have no label, and nothing else changed.
  pub record Cleared (addr n : ℕ) (p p' : Process L) : Type 0 where
    pub bytes : (k : ℕ) → k < n → p'.runtime.shadow (shadow_for (addr + k)) ≡ 0
    pub others :
        (a : ℕ)
        → ((k : ℕ) → k < n → a ≢ shadow_for (addr + k))
        → p'.runtime.shadow a ≡ p.runtime.shadow a
    pub rest : record p' { runtime = record p'.runtime { shadow = p.runtime.shadow } } ≡ p

  -- The functions that ask the system for something to be filled in: the call, which of its
  -- answers stand for success, and the bytes that are new then.
  pub data Fills : Run (Process L) (ℕ × ℕ) → Call → (ℕ → Bool) → ℕ → ℕ → Type 0 where
    fills_clock_gettime :
        (clk_id tp : ℕ)
        → Fills
            (dfsw_clock_gettime clk_id tp)
            (Call.clock_gettime clk_id tp)
            (λ ret. ret == 0)
            tp
            (L.sizeof SystemType.time_spec)
    fills_getrlimit :
        (resource rlim : ℕ)
        → Fills
            (dfsw_getrlimit resource rlim)
            (Call.getrlimit resource rlim)
            (λ ret. ret == 0)
            rlim
            (L.sizeof SystemType.resource_limit)
    fills_getrusage :
        (who usage : ℕ)
        → Fills
            (dfsw_getrusage who usage)
            (Call.getrusage who usage)
            (λ ret. ret == 0)
            usage
            (L.sizeof SystemType.resource_usage)
    fills_sched_getaffinity :
        (pid size mask : ℕ)
        → Fills
            (dfsw_sched_getaffinity pid size mask)
            (Call.sched_getaffinity pid size mask)
            (λ ret. ret == 0)
            mask
            size
    fills_socketpair :
        (domain type protocol sv : ℕ)
        → Fills
            (dfsw_socketpair domain type protocol sv)
            (Call.socketpair domain type protocol sv)
            (λ ret. ret == 0)
            sv
            (L.sizeof SystemType.an_int * 2)
    fills_nanosleep :
        (req rem : ℕ)
        → Fills
            (dfsw_nanosleep req rem)
            (Call.nanosleep req rem)
            (λ ret. ret == minus_one_32)
            rem
            (L.sizeof SystemType.time_spec)
    fills_time :
        (t : ℕ)
        → Fills
            (dfsw_time t)
            (Call.time t)
            (λ ret. not (ret == minus_one_64) && not (t == 0))
            t
            (L.sizeof SystemType.time_value)
    fills_munmap :
        (addr length : ℕ)
        → Fills (dfsw_munmap addr length) (Call.munmap addr length) (λ ret. ret == 0) addr length

  -- How such a function ends.
  abbrev pub Filled : Call → (ℕ → Bool) → ℕ → ℕ → Process L → ℕ × ℕ → Process L → Type 0
  Filled c succeeded addr n p value p' =
      (value ≡ (answer_of c p, 0))
      × (((succeeded (answer_of c p) ≡ true) × Cleared addr n (after_call c p) p')
          ⊎ ((succeeded (answer_of c p) ≡ false) × (p' ≡ after_call c p)))
