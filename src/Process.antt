-- ===== src/Process.antt =====
-- What the runtime keeps beside its tables: the taint source of dfsan.h (`struct taint_file`), and
-- the C library, which is not part of the repository. Its calls are data; what each answers, and
-- what it does to memory and to the system, is a parameter. Integers of C stand as their bit
-- patterns, so that -1 is the largest one.
use kirenenko.Prelude.{ℕ, ◌+◌, ◌-◌, ◌^◌, Bool, true, false, ◌&&◌, List, [], ◌∷◌, ◌==◌, ltb}
use kirenenko.Run.{Run, ok, died}
use kirenenko.Runtime.{Runtime}

abbrev pub minus_one_32 : ℕ
minus_one_32 = 2 ^ 32 - 1

abbrev pub minus_one_64 : ℕ
minus_one_64 = 2 ^ 64 - 1

-- A signed 64-bit integer is not negative.
abbrev pub is_natural : ℕ → Bool
is_natural n = ltb n (2 ^ 63)

abbrev pub same_string : List ℕ → List ℕ → Bool
same_string [] [] = true
same_string [] (y ∷ ys) = false
same_string (x ∷ xs) [] = false
same_string (x ∷ xs) (y ∷ ys) = x == y && same_string xs ys

abbrev pub count : List ℕ → ℕ
count [] = 0
count (x ∷ xs) = 1 + count xs

pub record TaintFile : Type 0 where
  pub filename : List ℕ
  pub fd : ℕ
  pub offset : ℕ
  pub offset_label : ℕ
  pub size : ℕ
  pub is_stdin : Bool
  pub is_utmp : Bool
  pub buf : ℕ
  pub buf_size : ℕ

-- The calls of the C library, with their arguments.
pub data Call : Type 0 where
  stat lstat : ℕ → ℕ → Call
  xstat lxstat fxstat : ℕ → ℕ → ℕ → Call
  fstat : ℕ → ℕ → Call
  memcmp strncmp : ℕ → ℕ → ℕ → Call
  strcmp stpcpy strcpy : ℕ → ℕ → Call
  malloc malloc_usable_size : ℕ → Call
  realloc : ℕ → ℕ → Call
  pread : ℕ → ℕ → ℕ → ℕ → Call
  read : ℕ → ℕ → ℕ → Call
  lseek fseek fseeko fseeko64 : ℕ → ℕ → ℕ → Call
  open_path fopen fopen64 : ℕ → ℕ → Call
  freopen : ℕ → ℕ → ℕ → Call
  close fclose fileno ftell : ℕ → Call
  fread : ℕ → ℕ → ℕ → ℕ → Call
  getline : ℕ → ℕ → ℕ → Call
  getdelim getdelim_internal : ℕ → ℕ → ℕ → ℕ → Call
  fgets fgets_unlocked : ℕ → ℕ → ℕ → Call
  fgetc getc getc_unlocked : ℕ → Call
  getchar : Call
  utmpxname : ℕ → Call
  setutxent getutxent : Call
  mmap : ℕ → ℕ → ℕ → ℕ → ℕ → ℕ → Call
  munmap : ℕ → ℕ → Call
  clock_gettime gethostname getrlimit getrusage getcwd ctime_r localtime_r : ℕ → ℕ → Call
  get_current_dir_name : Call
  time sigemptyset free : ℕ → Call
  sched_getaffinity inet_pton poll sigaction memchr : ℕ → ℕ → ℕ → Call
  gettimeofday strchr strrchr strstr calloc nanosleep : ℕ → ℕ → Call
  getpwuid_r select : ℕ → ℕ → ℕ → ℕ → ℕ → Call
  socketpair : ℕ → ℕ → ℕ → ℕ → Call
  -- the second argument is the variable `tmp_endptr` of the caller
  strtol strtoll strtoul strtoull : ℕ → ℕ → ℕ → Call
  strtod : ℕ → ℕ → Call

-- The types whose sizes the functions use.
pub data SystemType : Type 0 where
  time_spec time_val time_zone time_value resource_limit resource_usage : SystemType
  broken_down_time password a_pointer an_int descriptor_set signal_set signal_action : SystemType
  internet_address internet_address_6 poll_fd poll_events : SystemType

pub record Libc : Type 1 where
  pub Os : Type 0
  -- The bytes of the string that begins at an address, without the null.
  pub c_string : (ℕ → ℕ) → ℕ → List ℕ
  -- Whether `realpath` succeeds, and what its buffer holds then.
  pub realpath : Os → List ℕ → Bool × List ℕ
  pub call : Call → Os → (ℕ → ℕ) → ℕ × Os × (ℕ → ℕ)
  -- The address of the standard stream, and sizes of the system's structures.
  pub stdin : ℕ
  pub sizeof_stat : ℕ
  pub offset_of_size : ℕ
  pub sizeof_utmpx : ℕ
  pub sizeof : SystemType → ℕ
  pub offset_of_revents : ℕ
  pub af_inet : ℕ

pub record Process (L : Libc) : Type 0 where
  pub runtime : Runtime
  pub tainted : TaintFile
  pub os : L.Os

module _ {L : Libc} where
  -- A step of the runtime's tables and shadow memory.
  abbrev pub labels : {A : Type 0} → Run Runtime A → Run (Process L) A
  labels m p = elim (m p.runtime) [
    | ok a r ↦ ok a (record p { runtime = r })
    | died e r ↦ died e (record p { runtime = r })
  ]

  unfoldable pub libc : Call → Run (Process L) ℕ
  libc c p =
      let (ret, os, memory) = L.call c p.os p.runtime.memory in
      ok ret (record p { os = os; runtime = record p.runtime { memory = memory } })

  abbrev pub strlen : ℕ → Process L → ℕ
  strlen s p = count (L.c_string p.runtime.memory s)
