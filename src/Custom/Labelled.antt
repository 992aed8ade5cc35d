-- ===== src/Custom/Labelled.antt =====
-- dfsan_custom.cc: the labels of bytes that were read from the input file.
use kirenenko.Prelude.{
  ℕ, zero, suc, ◌+◌, ◌^◌, ◌≤◌, ◌<◌, ◌≡◌, ◌≢◌, refl, ◌∙◌, inl, inr, arith, Bool-cases, false, ◌==◌,
  if◌then◌else◌,
}
use kirenenko.Word.{u32, u64}
use kirenenko.Run.{ok, Returns, >>=-ok}
use kirenenko.Mapping.{shadow_for}
use kirenenko.Mapping.RoundTrip.{shadow_for_app}
use kirenenko.LabelInfo.{const_offset}
use kirenenko.Shadow.{set_labels, dfsan_set_label}
use kirenenko.Process.{Libc, Process, Call, libc}
use kirenenko.TaintFile.{is_stdin_taint, taint_get_file}
use kirenenko.Custom.{get_label_for, set_label, label_bytes}
use kirenenko.Custom.Read.{label_read, dfsw_read, dfsw_pread}

shadow_for-apart :
    (buf i k : ℕ)
    → 0x700000000000 ≤ buf
    → buf + i < 0x800000000000
    → buf + k < 0x800000000000
    → i ≢ k
    → shadow_for (buf + i) ≢ shadow_for (buf + k)
shadow_for-apart buf i k lo hi hi' ne e = ne (
    omega (
      arith,
      shadow_for_app (buf + i) (omega arith, hi),
      shadow_for_app (buf + k) (omega arith, hi'),
    ))

-- A buffer of application memory, for bytes whose labels fit 32 bits.
abbrev pub FitsIn : ℕ → ℕ → ℕ → Type 0
FitsIn offset buf n = (0x700000000000 ≤ buf) × (buf + n ≤ 0x800000000000) × (offset + n < 2 ^ 32)

module _ {L : Libc} where
  -- Only shadow memory is different.
  abbrev pub SameButShadow : Process L → Process L → Type 0
  SameButShadow p p' =
      (p'.tainted ≡ p.tainted)
      × (p'.os ≡ p.os)
      × (p'.runtime.label_info ≡ p.runtime.label_info)
      × (p'.runtime.last_label ≡ p.runtime.last_label)
      × (p'.runtime.memory ≡ p.runtime.memory)
      × (p'.runtime.allocator ≡ p.runtime.allocator)
      × (p'.runtime.union_table ≡ p.runtime.union_table)

  -- The bytes `buf + k`, for `i ≤ k < n`, have the labels `offset + k + 1`.
  pub record Labelled (offset buf i n : ℕ) (p p' : Process L) : Type 0 where
    pub bytes : (k : ℕ) → i ≤ k → k < n → p'.runtime.shadow (shadow_for (buf + k)) ≡ offset + k + 1
    pub others :
        (a : ℕ)
        → ((k : ℕ) → i ≤ k → k < n → a ≢ shadow_for (buf + k))
        → p'.runtime.shadow a ≡ p.runtime.shadow a
    pub rest : SameButShadow p p'

  set_label-one :
      (label addr : ℕ) (p : Process L)
      → Returns (set_label label addr 1 p) λ _ p'.
        ((a : ℕ)
          → p'.runtime.shadow a ≡ (if a == shadow_for addr then label else p.runtime.shadow a))
        × SameButShadow p p'
  unfolding dfsan_set_label set_labels
  set_label-one label addr p = elim (Bool-cases (label == p.runtime.shadow (shadow_for addr))) [
    | inl e ↦ (tt, _, refl, ((λ a. ground (arith, e)), ground (arith, e)))
    | inr e ↦ (tt, _, refl, ((λ a. ground (arith, e)), ground (arith, e)))
  ]

  Labelled-cons :
      (offset buf i n : ℕ) (p p1 p2 : Process L)
      → 0x700000000000 ≤ buf
      → i < n
      → buf + n ≤ 0x800000000000
      → ((a : ℕ)
          → p1.runtime.shadow a
            ≡ (if a == shadow_for (buf + i) then offset + i + 1 else p.runtime.shadow a))
      → SameButShadow p p1
      → Labelled offset buf (i + 1) n p1 p2
      → Labelled offset buf i n p p2
  Labelled-cons offset buf i n p p1 p2 lo lt hi wrote same l = record {
    bytes = λ k le h. elim (Bool-cases (k == i)) [
      | inl e ↦
          let q : k ≡ i = ground (arith, e) in
          rw q (
            l.others (shadow_for (buf + i))
              (λ j g h2. shadow_for-apart buf i j lo (omega arith) (omega arith) (omega arith))
            ∙ ground (arith, wrote (shadow_for (buf + i))))
      | inr e ↦ l.bytes k (ground (arith, e)) h
    ];
    others = λ a out.
        l.others a (λ k le h. out k (omega arith) h)
        ∙ let ne = out i (omega arith) lt in ground (arith, wrote a, ne);
    rest = let r = l.rest in ground arith;
  }

  get_label_for-file :
      (x : ℕ) (p : Process L)
      → p.tainted.is_stdin ≡ false
      → x + 1 < 2 ^ 32
      → get_label_for (u64 x) p ≡ ok (x + 1) p
  unfolding get_label_for is_stdin_taint
  get_label_for-file x p file small =
      let e : u32 (u64 x + const_offset) ≡ x + 1 = omega arith in rw (file, e) refl

  label_bytes-step :
      (offset buf i rounds : ℕ) (p p1 p2 : Process L) {l : ℕ}
      → get_label_for (u64 (offset + i)) p ≡ ok l p
      → set_label l (buf + i) 1 p ≡ ok tt p1
      → label_bytes offset buf (i + 1) rounds p1 ≡ ok tt p2
      → label_bytes offset buf i (suc rounds) p ≡ ok tt p2
  unfolding label_bytes
  label_bytes-step offset buf i rounds p p1 p2 {l} h1 h2 h3 =
      >>=-ok (get_label_for (u64 (offset + i))) _ h1 ∙ >>=-ok (set_label l (buf + i) 1) _ h2 ∙ h3

  label_bytes-Labelled :
      (offset buf i rounds : ℕ) (p : Process L)
      → p.tainted.is_stdin ≡ false
      → 0x700000000000 ≤ buf
      → buf + (i + rounds) ≤ 0x800000000000
      → offset + (i + rounds) < 2 ^ 32
      → Returns (label_bytes offset buf i rounds p) λ _ p'. Labelled offset buf i (i + rounds) p p'
  unfolding label_bytes
  label_bytes-Labelled offset buf i zero p file lo hi small = (
    tt,
    p,
    refl,
    record {
      bytes = λ k le h. absurd (omega arith);
      others = λ a out. refl;
      rest = (refl, refl, refl, refl, refl, refl, refl);
    },
  )
  label_bytes-Labelled offset buf i (suc rounds) p file lo hi small =
      let (_, p1, run1, (wrote, same)) = set_label-one (offset + i + 1) (buf + i) p in
      let file1 : p1.tainted.is_stdin ≡ false = ground (arith, same) in
      let (_, p2, run2, l) =
        label_bytes-Labelled offset buf (i + 1) rounds p1 file1 lo (omega arith) (omega arith) in
      let q : i + 1 + rounds ≡ i + suc rounds = omega arith in
      (
        tt,
        p2,
        label_bytes-step offset buf i rounds p p1 p2
            (get_label_for-file (offset + i) p file (omega arith)) run1 run2,
        Labelled-cons offset buf i (i + suc rounds) p p1 p2 lo (omega arith) hi wrote same
            (rw q at l),
      )

  -- The process after a call of the library.
  abbrev pub called : L.Os → (ℕ → ℕ) → Process L → Process L
  called os memory p = record p { os = os; runtime = record p.runtime { memory = memory } }

  -- The descriptor is that of the input, which is a file with at least one byte.
  pub record IsInputFile (fd : ℕ) (p : Process L) : Type 0 where
    pub file : p.tainted.is_stdin ≡ false
    pub descriptor : p.tainted.fd ≡ fd
    pub size : p.tainted.size ≢ 0

  label_read-Labelled :
      (fd offset buf ret : ℕ) (p : Process L)
      → IsInputFile fd p
      → FitsIn offset buf ret
      → Returns (label_read fd offset buf ret p) λ _ p'. Labelled offset buf 0 ret p p'
  unfolding label_read taint_get_file
  label_read-Labelled fd offset buf ret p h (lo, hi, small) =
      let (_, p', run, l) =
        label_bytes-Labelled offset buf 0 ret p h.file lo (omega arith) (omega arith) in
      let e1 = h.descriptor in
      let e2 = h.size in
      let q : 0 + ret ≡ ret = omega arith in (tt, p', ground (arith, run), rw q at l)

  libc-ok :
      (c : Call) (p : Process L) {ret : ℕ} {os : L.Os} {memory : ℕ → ℕ}
      → L.call c p.os p.runtime.memory ≡ (ret, os, memory)
      → libc c p ≡ ok ret (called os memory p)
  unfolding libc
  libc-ok c p h = rw h refl

  -- When the descriptor is that of the input file, `lseek` gives `offset`, `read` returns `ret`
  -- bytes, these are in application memory, and `offset + ret` fits 32 bits, `__dfsw_read` returns
  -- `ret` without a label: each byte `k` that was read has the label `offset + k + 1`, no other
  -- label in shadow memory is different, and memory is as `read` left it.
  pub dfsw_read-Labelled :
      (fd buf size offset ret : ℕ) (os1 os2 : L.Os) (memory1 memory2 : ℕ → ℕ) (p : Process L)
      → IsInputFile fd p
      → L.call (Call.lseek fd 0 1) p.os p.runtime.memory ≡ (offset, os1, memory1)
      → L.call (Call.read fd buf size) os1 memory1 ≡ (ret, os2, memory2)
      → FitsIn offset buf ret
      → Returns
          (dfsw_read fd buf size p)
          λ value p'. (value ≡ (ret, 0)) × Labelled offset buf 0 ret (called os2 memory2 p) p'
  unfolding dfsw_read
  dfsw_read-Labelled fd buf size offset ret os1 os2 memory1 memory2 p h sought got fits =
      let p2 = called os2 memory2 p in
      let h2 : IsInputFile fd p2 = record {
        file = h.file;
        descriptor = h.descriptor;
        size = h.size;
      } in
      let (_, p3, run, l) = label_read-Labelled fd offset buf ret p2 h2 fits in
      (
        (ret, 0),
        p3,
        >>=-ok (libc (Call.lseek fd 0 1)) _ (libc-ok (Call.lseek fd 0 1) p sought)
            ∙ >>=-ok (libc (Call.read fd buf size)) _
                (libc-ok (Call.read fd buf size) (called os1 memory1 p) got)
            ∙ >>=-ok (label_read fd offset buf ret) _ run,
        (refl, l),
      )

  -- The same of `__dfsw_pread`, with the offset that it is given.
  pub dfsw_pread-Labelled :
      (fd buf size offset ret : ℕ) (os1 : L.Os) (memory1 : ℕ → ℕ) (p : Process L)
      → IsInputFile fd p
      → L.call (Call.pread fd buf size offset) p.os p.runtime.memory ≡ (ret, os1, memory1)
      → FitsIn offset buf ret
      → Returns
          (dfsw_pread fd buf size offset p)
          λ value p'. (value ≡ (ret, 0)) × Labelled offset buf 0 ret (called os1 memory1 p) p'
  unfolding dfsw_pread
  dfsw_pread-Labelled fd buf size offset ret os1 memory1 p h got fits =
      let p1 = called os1 memory1 p in
      let h1 : IsInputFile fd p1 = record {
        file = h.file;
        descriptor = h.descriptor;
        size = h.size;
      } in
      let (_, p2, run, l) = label_read-Labelled fd offset buf ret p1 h1 fits in
      (
        (ret, 0),
        p2,
        >>=-ok (libc (Call.pread fd buf size offset)) _
              (libc-ok (Call.pread fd buf size offset) p got)
            ∙ >>=-ok (label_read fd offset buf ret) _ run,
        (refl, l),
      )
