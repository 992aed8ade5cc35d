-- ===== src/Custom/Streams.antt =====
-- dfsan_custom.cc: files and streams that are opened, closed and read.
use kirenenko.Prelude.{ℕ, zero, suc, ◌+◌, ◌*◌, ◌^◌, not, ◌&&◌, ◌==◌, if◌then◌else◌}
use kirenenko.Run.{Run, ok, pure, ◌>>=◌, ◌>>◌}
use kirenenko.Word.{u64}
use kirenenko.Labels.{dfsan_create_label}
use kirenenko.Process.{Libc, Process, Call, libc, labels, is_natural, strlen}
use kirenenko.TaintFile.{
  taint_get_file, taint_set_file, taint_close_file, is_taint_file, is_utmp_taint, set_utmp_offset,
  get_utmp_offset,
}
use kirenenko.Custom.{set_label, label_bytes}

-- The pointer that memory holds at an address.
unfoldable pub pointer_at : (ℕ → ℕ) → ℕ → ℕ
pointer_at memory addr =
    memory addr
    + memory (addr + 1) * 2 ^ 8
    + memory (addr + 2) * 2 ^ 16
    + memory (addr + 3) * 2 ^ 24
    + memory (addr + 4) * 2 ^ 32
    + memory (addr + 5) * 2 ^ 40
    + memory (addr + 6) * 2 ^ 48
    + memory (addr + 7) * 2 ^ 56

module _ {L : Libc} where
  -- A descriptor of 0 is taken for a failure, one of -1 is not.
  unfoldable pub dfsw_open : ℕ → ℕ → Run (Process L) (ℕ × ℕ)
  dfsw_open path oflags = do
    fd ← libc (Call.open_path path oflags)
    if not (fd == 0) then taint_set_file path fd else pure tt
    pure (fd, 0)

  -- `fopen`, `fopen64` and `freopen`.
  unfoldable pub open_stream : Call → ℕ → Run (Process L) (ℕ × ℕ)
  open_stream c filename = do
    ret ← libc c
    if not (ret == 0) then (do fd ← libc (Call.fileno ret); taint_set_file filename fd) else pure tt
    pure (ret, 0)

  unfoldable pub dfsw_fopen : ℕ → ℕ → Run (Process L) (ℕ × ℕ)
  dfsw_fopen filename mode = open_stream (Call.fopen filename mode) filename

  unfoldable pub dfsw_fopen64 : ℕ → ℕ → Run (Process L) (ℕ × ℕ)
  dfsw_fopen64 filename mode = open_stream (Call.fopen64 filename mode) filename

  unfoldable pub dfsw_freopen : ℕ → ℕ → ℕ → Run (Process L) (ℕ × ℕ)
  dfsw_freopen filename mode stream = open_stream (Call.freopen filename mode stream) filename

  unfoldable pub dfsw_close : ℕ → Run (Process L) (ℕ × ℕ)
  dfsw_close fd = do taint_close_file fd; ret ← libc (Call.close fd); pure (ret, 0)

  unfoldable pub dfsw_fclose : ℕ → Run (Process L) (ℕ × ℕ)
  dfsw_fclose fp = do
    fd ← libc (Call.fileno fp)
    ret ← libc (Call.fclose fp)
    if ret == 0 then taint_close_file fd else pure tt
    pure (ret, 0)

  -- `fread` and `fread_unlocked`; the size of the input is asked for before the call.
  unfoldable pub dfsw_fread : ℕ → ℕ → ℕ → ℕ → Run (Process L) (ℕ × ℕ)
  dfsw_fread ptr size nmemb stream = do
    fd ← libc (Call.fileno stream)
    tfsize ← λ p. ok (taint_get_file p fd) p
    offset ← libc (Call.ftell stream)
    ret ← libc (Call.fread ptr size nmemb stream)
    if ret == 0
        then pure tt
        else if not (tfsize == 0)
        then label_bytes offset ptr 0 (u64 (ret * size))
        else set_label 0 ptr (u64 (ret * size))
    pure (ret, 0)

  -- The block of `getline`, `getdelim` and `__getdelim`. On -1 no byte is labelled, and the label
  -- of the byte before the line is taken away.
  unfoldable pub label_line : ℕ → ℕ → ℕ → ℕ → Run (Process L) (Unit {0})
  label_line fd offset lineptr ret p =
      let line = pointer_at p.runtime.memory lineptr in
      if ret == 0
      then ok tt p
      else if not (taint_get_file p fd == 0)
      then (do
        label_bytes offset line 0 (if is_natural ret then ret else 0)
        set_label 0 (u64 (line + ret)) 1)
          p
      else set_label 0 line (u64 (ret + 1)) p

  unfoldable pub get_line : Call → ℕ → ℕ → Run (Process L) (ℕ × ℕ)
  get_line c lineptr stream = do
    fd ← libc (Call.fileno stream)
    offset ← libc (Call.ftell stream)
    ret ← libc c
    label_line fd offset lineptr ret
    pure (ret, 0)

  unfoldable pub dfsw_getline : ℕ → ℕ → ℕ → Run (Process L) (ℕ × ℕ)
  dfsw_getline lineptr n stream = get_line (Call.getline lineptr n stream) lineptr stream

  unfoldable pub dfsw_getdelim : ℕ → ℕ → ℕ → ℕ → Run (Process L) (ℕ × ℕ)
  dfsw_getdelim lineptr n delim stream =
      get_line (Call.getdelim lineptr n delim stream) lineptr stream

  unfoldable pub dfsw_getdelim_internal : ℕ → ℕ → ℕ → ℕ → Run (Process L) (ℕ × ℕ)
  dfsw_getdelim_internal lineptr n delim stream =
      get_line (Call.getdelim_internal lineptr n delim stream) lineptr stream

  -- `fgets` and `fgets_unlocked`.
  unfoldable pub get_string : Call → ℕ → ℕ → ℕ → Run (Process L) (ℕ × ℕ)
  get_string c s stream s_label = do
    fd ← libc (Call.fileno stream)
    offset ← libc (Call.ftell stream)
    ret ← libc c
    λ p.
        if ret == 0
        then ok (ret, 0) p
        else (do
          if not (taint_get_file p fd == 0)
              then (do label_bytes offset s 0 (strlen ret p); set_label 0 (s + strlen ret p) 1)
              else set_label 0 s (strlen ret p + 1)
          pure (ret, s_label))
            p

  unfoldable pub dfsw_fgets : ℕ → ℕ → ℕ → ℕ → Run (Process L) (ℕ × ℕ)
  dfsw_fgets s size stream s_label = get_string (Call.fgets s size stream) s stream s_label

  unfoldable pub dfsw_fgets_unlocked : ℕ → ℕ → ℕ → ℕ → Run (Process L) (ℕ × ℕ)
  dfsw_fgets_unlocked s size stream s_label =
      get_string (Call.fgets_unlocked s size stream) s stream s_label

  -- The loop of `gets`, which makes a new label for each byte, the null included.
  unfoldable pub label_new : ℕ → ℕ → ℕ → ℕ → Run (Process L) (Unit {0})
  label_new offset buf i zero = pure tt
  label_new offset buf i (suc rounds) = do
    label ← labels (dfsan_create_label (u64 (offset + i)))
    set_label label (buf + i) 1
    label_new offset buf (i + 1) rounds

  -- `sizeof(str)` is that of a pointer.
  unfoldable pub dfsw_gets : ℕ → ℕ → Run (Process L) (ℕ × ℕ)
  dfsw_gets str str_label = do
    offset ← libc (Call.ftell L.stdin)
    ret ← libc (Call.fgets str 8 L.stdin)
    λ p.
        if not (ret == 0) && not (taint_get_file p 0 == 0)
        then (do label_new offset ret 0 (strlen ret p + 1); pure (ret, str_label)) p
        else ok (ret, 0) p

  unfoldable pub dfsw_utmpxname : ℕ → Run (Process L) (ℕ × ℕ)
  dfsw_utmpxname file = do
    found ← is_taint_file file
    if found then set_utmp_offset 0 else pure tt
    ret ← libc (Call.utmpxname file)
    pure (ret, 0)

  unfoldable pub dfsw_setutxent : Run (Process L) (Unit {0})
  dfsw_setutxent = do
    λ p. if is_utmp_taint p then set_utmp_offset 0 p else ok tt p
    libc Call.setutxent
    pure tt

  unfoldable pub dfsw_getutxent : Run (Process L) (ℕ × ℕ)
  dfsw_getutxent = do
    ret ← libc Call.getutxent
    λ p.
        if not (ret == 0) && is_utmp_taint p
        then (do
          label_bytes (get_utmp_offset p) ret 0 L.sizeof_utmpx
          set_utmp_offset (get_utmp_offset p + L.sizeof_utmpx))
            p
        else ok tt p
    pure (ret, 0)
