-- ===== src/Custom.antt =====
-- dfsan_custom.cc: the functions that stand in for those of the C library, with labels for what
-- these return and write. Each returns the value and its label. Here is what they share: the
-- labels of bytes that were read from the input, and copies of bytes with their labels.
pub mod Stat
pub mod Compare
pub mod Copy
pub mod Read
pub mod Streams
pub mod Chars
pub mod Maps
pub mod System
pub mod Convert
pub mod Seek
pub mod Cleared
pub mod Labelled
pub mod Loaded
pub mod Moved
use kirenenko.Prelude.{
  ℕ, zero, suc, ◌+◌, ◌-◌, ◌*◌, Bool, true, false, not, ◌&&◌, ◌==◌, if◌then◌else◌, update,
}
use kirenenko.Word.{u8, u32, u64}
use kirenenko.Run.{Step, Run, ok, died, pure, ◌>>=◌, ◌>>◌}
use kirenenko.Mapping.{shadow_for}
use kirenenko.Operators.{Opcodes}
use kirenenko.LabelInfo.{const_offset}
use kirenenko.Runtime.{Runtime}
use kirenenko.Labels.{taint_union, dfsan_create_label}
use kirenenko.Shadow.{dfsan_set_label}
use kirenenko.Process.{Libc, Process, labels}
use kirenenko.TaintFile.{is_stdin_taint}

module _ {L : Libc} where
  -- The label of the byte at `offset` of the input: a new one on a pipe, else the one that it has
  -- from the start.
  unfoldable pub get_label_for : ℕ → Run (Process L) ℕ
  get_label_for offset p =
      if is_stdin_taint p
      then labels (dfsan_create_label offset) p
      else ok (u32 (offset + const_offset)) p

  abbrev pub set_label : ℕ → ℕ → ℕ → Run (Process L) (Unit {0})
  set_label label addr size = labels (dfsan_set_label label addr size)

  -- The loop over the bytes `buf + i` and further on, which were read from `offset + i` on.
  unfoldable pub label_bytes : ℕ → ℕ → ℕ → ℕ → Run (Process L) (Unit {0})
  label_bytes offset buf i zero = pure tt
  label_bytes offset buf i (suc rounds) = do
    label ← get_label_for (u64 (offset + i))
    set_label label (buf + i) 1
    label_bytes offset buf (i + 1) rounds

  -- The interface `dfsan_union`, which takes the size on eight bits.
  unfoldable pub dfsan_union : ⦃ops : Opcodes⦄ → ℕ → ℕ → ℕ → ℕ → ℕ → ℕ → Run (Process L) ℕ
  dfsan_union l1 l2 op size op1 op2 = labels (taint_union l1 l2 op (u8 size) op1 op2)

-- The forward loops of `internal_memcpy`: labels from `ssrc` to `sdest`, and bytes.
unfoldable pub copy_labels : ℕ → ℕ → ℕ → ℕ → (ℕ → ℕ) → ℕ → ℕ
copy_labels sdest ssrc i zero shadow = shadow
copy_labels sdest ssrc i (suc rounds) shadow =
    copy_labels sdest ssrc (i + 1) rounds (update shadow (sdest + 4 * i) (shadow (ssrc + 4 * i)))

unfoldable pub copy_bytes : ℕ → ℕ → ℕ → ℕ → (ℕ → ℕ) → ℕ → ℕ
copy_bytes dest src i zero memory = memory
copy_bytes dest src i (suc rounds) memory =
    copy_bytes dest src (i + 1) rounds (update memory (dest + i) (memory (src + i)))

unfoldable pub fill_bytes : ℕ → ℕ → ℕ → ℕ → (ℕ → ℕ) → ℕ → ℕ
fill_bytes s c i zero memory = memory
fill_bytes s c i (suc rounds) memory = fill_bytes s c (i + 1) rounds (update memory (s + i) c)

module _ {L : Libc} where
  abbrev pub set_memory : (ℕ → ℕ) → (ℕ → ℕ) → Process L → Process L
  set_memory shadow memory p = record p {
    runtime = record p.runtime { shadow = shadow; memory = memory };
  }

  unfoldable pub dfsan_memcpy : ℕ → ℕ → ℕ → Run (Process L) ℕ
  dfsan_memcpy dest src n p = ok dest (
      set_memory (copy_labels (shadow_for dest) (shadow_for src) 0 n p.runtime.shadow)
        (copy_bytes dest src 0 n p.runtime.memory) p)

  unfoldable pub dfsan_memset : ℕ → ℕ → ℕ → ℕ → Run (Process L) (Unit {0})
  dfsan_memset s c c_label n p =
      set_label c_label s n
        (set_memory p.runtime.shadow (fill_bytes s (u8 c) 0 n p.runtime.memory) p)
