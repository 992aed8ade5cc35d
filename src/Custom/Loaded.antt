-- ===== src/Custom/Loaded.antt =====
-- dfsan_custom.cc and dfsan.cc: loads of bytes that were read from the input.
use kirenenko.Prelude.{ℕ, ◌+◌, ◌*◌, ◌≤◌, ◌<◌, ◌≡◌, arith}
use kirenenko.Word.{u16, u32}
use kirenenko.Operators.{Opcodes, op_load}
use kirenenko.Mapping.{shadow_for}
use kirenenko.Mapping.RoundTrip.{shadow_for-add}
use kirenenko.Labels.{taint_union}
use kirenenko.Labels.Invariant.{Valid, Valid-shadow}
use kirenenko.Shadow.{dfsan_read_label}
use kirenenko.Shadow.Input.{IsInputRun, load-input}
use kirenenko.Process.{Libc, Process}
use kirenenko.TaintFile.Created.{input_entry}
use kirenenko.Custom.Labelled.{SameButShadow, Labelled, FitsIn}

module _ {L : Libc} where
  -- The tables of the runtime are as they were, so their invariant still holds.
  pub Valid-kept : (p p' : Process L) → SameButShadow p p' → Valid p.runtime → Valid p'.runtime
  Valid-kept p p' same v =
      let e : record p.runtime { shadow = p'.runtime.shadow } ≡ p'.runtime =
        let (_, _, h1, h2, h3, h4, h5) = same in cc (h1, h2, h3, h4, h5) in
      rw e at (Valid-shadow p'.runtime.shadow v)

  module _ ⦃ops : Opcodes⦄ (offset buf n : ℕ) (p p' : Process L) (fits : FitsIn offset buf n)
      (l : Labelled offset buf 0 n p p') (v : Valid p.runtime)
      (inside : offset + n ≤ p.runtime.last_label)
      (table : (k : ℕ) → k < offset + n → p.runtime.label_info (k + 1) ≡ input_entry k) where
    Labelled-IsInputRun :
        (j m : ℕ)
        → 0 < m
        → j + m ≤ n
        → IsInputRun p'.runtime (shadow_for (buf + j)) (offset + j + 1) m
    Labelled-IsInputRun j m pos le =
        let (lo, hi, small) = fits in
        let same = l.rest in
        let entry : (k : ℕ) → k < offset + n → p'.runtime.label_info (k + 1) ≡ input_entry k =
          λ k h. ground (arith, same, table k h) in
        record {
          exists = ground (arith, same);
          input = ground (arith, entry (offset + j) (omega arith));
          sized = ground (arith, entry (offset + j) (omega arith));
          offset_fits = ground (arith, entry (offset + j) (omega arith));
          labels = λ i h.
              let e = shadow_for-add (buf + j) i (omega arith) (omega arith) in
              let q : buf + j + i ≡ buf + (j + i) = omega arith in
              let b = l.bytes (j + i) (omega arith) (omega arith) in ground (arith, e, q, b);
          offsets = λ i h.
              let q : offset + j + 1 + i ≡ offset + j + i + 1 = omega arith in
              rw q (
                ground
                  (arith, entry (offset + j) (omega arith), entry (offset + j + i) (omega arith)));
        }

    -- The bytes `buf`, … carry the labels that reading them at `offset` left, in a table that has
    -- the input byte `k` as the entry of the label `k + 1`. Then loading `m` of them, for
    -- `2 ≤ m`, from the byte `j` on, makes the `Load` of `m` bytes of the input at `offset + j`.
    pub dfsan_read_label-Labelled :
        (j m fuel : ℕ)
        → 2 ≤ m
        → j + m ≤ n
        → dfsan_read_label fuel (buf + j) m p'.runtime
          ≡ taint_union (offset + j + 1) (u32 m) op_load (u16 (m * 8)) 0 0 p'.runtime
    unfolding dfsan_read_label
    dfsan_read_label-Labelled j m fuel two le = ground (
      arith,
      load-input p'.runtime (Valid-kept p p' l.rest v) (shadow_for (buf + j)) (offset + j + 1) m
          fuel (Labelled-IsInputRun j m (omega arith) le) two,
    )
