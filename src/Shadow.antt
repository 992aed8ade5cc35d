-- ===== src/Shadow.antt =====
-- dfsan.cc: labels in shadow memory. `__taint_union_load` makes one label of the labels of `n`
-- bytes, `__taint_union_store` takes a label apart into those of `n` bytes. `ls` is an address in
-- shadow memory, where each label takes four bytes.
pub mod Extracts
pub mod Input
pub mod Mixed
pub mod Slow
use kirenenko.Prelude.{
  ℕ, zero, suc, ◌+◌, ◌*◌, ◌-◌, ◌/◌, Bool, true, false, ◌&&◌, ◌||◌, not, ◌==◌, ltb, leb,
  if◌then◌else◌, update,
}
use kirenenko.Word.{u8, u16, u32, u64, sign_extend_char}
use kirenenko.Run.{
  Step, Run, ok, died, assertion_failed, empty_load, out_of_fuel, pure, die, assert, ◌>>=◌, ◌>>◌,
}
use kirenenko.Mapping.{shadow_for, app_for}
use kirenenko.Operators.{Opcodes, op_load, op_extract, op_concat}
use kirenenko.LabelInfo.{LabelInfo, const_label, const_offset, initializing_label}
use kirenenko.Runtime.{Runtime, label_at, set_label_at}
use kirenenko.Labels.{taint_union}

abbrev pub is_constant_label : ℕ → Bool
is_constant_label label = label == const_label

abbrev pub is_kind_of_label : Runtime → ℕ → ℕ → Bool
is_kind_of_label r label kind = (r.label_info label).op == kind

-- The loop of the first fast path, `rounds` labels from `ls[i]` on.
unfoldable pub all_constant : Runtime → ℕ → ℕ → ℕ → Bool
all_constant r ls i zero = true
all_constant r ls i (suc rounds) =
    is_constant_label (label_at r ls i) && all_constant r ls (i + 1) rounds

pub data Shape : Type 0 where
  shaped unshaped initializing : Shape

-- Whether the labels from `ls[i]` on continue the input bytes that begin at `offset`.
unfoldable pub shape_from : Runtime → ℕ → ℕ → ℕ → ℕ → Shape
shape_from r ls offset i zero = shaped
shape_from r ls offset i (suc rounds) =
    let next_label = label_at r ls i in
    let rest = shape_from r ls offset (i + 1) rounds in
    if next_label == initializing_label
    then initializing
    else if not ((r.label_info next_label).op1 == u64 (offset + i))
    then unshaped
    else rest

unfoldable pub shape : Runtime → ℕ → ℕ → Shape
shape r ls n =
    let info = r.label_info (label_at r ls 0) in
    if not (info.op == 0) then unshaped else shape_from r ls info.op1 1 (n - 1)

-- How many bits the labels from `ls[i]` on extract from `parent` without a gap.
unfoldable pub extracted : ⦃ops : Opcodes⦄ → Runtime → ℕ → ℕ → ℕ → ℕ → ℕ → ℕ
extracted r ls parent offset i zero = offset
extracted r ls parent offset i (suc rounds) =
    let label = label_at r ls i in
    let info = r.label_info label in
    let rest = extracted r ls parent (u64 (offset + info.size)) (i + 1) rounds in
    if not (is_kind_of_label r label op_extract)
      || not (offset == info.op2)
      || not (parent == info.l1)
    then offset
    else rest

module _ ⦃ops : Opcodes⦄ where
  -- The second fast path applies.
  unfoldable pub is_whole : Runtime → ℕ → ℕ → Bool
  is_whole r ls n =
      let label0 = label_at r ls 0 in
      let parent = (r.label_info label0).l1 in
      let offset = extracted r ls parent 0 0 n in
      is_kind_of_label r label0 op_extract
      && (r.label_info parent).size == offset
      && offset == n * 8

  -- The loop of the slow path. Each round joins one more label, or one concrete byte, to what it
  -- has; a label that is wider than what is left is truncated, which ends the loop.
  unfoldable pub slow_path : ℕ → ℕ → ℕ → ℕ → ℕ → Run Runtime ℕ
  slow_path zero ls n i label r = if ltb i n then died out_of_fuel r else ok label r
  slow_path (suc fuel) ls n i label r =
      let next_label = label_at r ls i in
      let next_size = (r.label_info next_label).size in
      let taken = i + next_size / 8 in
      let byte = sign_extend_char (r.memory (app_for (ls + 4 * i))) in
      let more = slow_path fuel ls n in
      if not (ltb i n)
      then ok label r
      else if is_constant_label next_label
      then (taint_union label 0 op_concat (u16 ((i + 1) * 8)) 0 byte >>= more (i + 1)) r
      else if leb next_size ((n - i) * 8)
      then (taint_union label next_label op_concat (u16 (taken * 8)) 0 0 >>= more taken) r
      else (do
        trunc ← taint_union next_label const_label ops.op_trunc (u16 ((n - i) * 8)) 0 0
        taint_union label trunc op_concat (u16 (n * 8)) 0 0)
          r

  -- What follows the first fast path.
  unfoldable pub load_tainted : ℕ → ℕ → ℕ → Run Runtime ℕ
  load_tainted fuel ls n r =
      let label0 = label_at r ls 0 in
      let info = r.label_info label0 in
      let by_parts =
        if is_whole r ls n then ok info.l1 r else slow_path fuel ls n (info.size / 8) label0 r in
      elim (shape r ls n) [
        | initializing ↦ ok initializing_label r
        | shaped ↦
            if n == 1 then ok label0 r else taint_union label0 (u32 n) op_load (u16 (n * 8)) 0 0 r
        | unshaped ↦ by_parts
      ]

  -- `__taint_union_load`, with a bound on the rounds of the slow path.
  unfoldable pub taint_union_load : ℕ → ℕ → ℕ → Run Runtime ℕ
  taint_union_load fuel ls zero r =
      let label0 = label_at r ls 0 in
      if label0 == initializing_label
      then ok initializing_label r
      else (do
        assert (ltb label0 const_offset || not ((r.label_info label0).size == 0))
        if is_constant_label label0
            then pure const_label
            else if (r.label_info label0).op == 0
            then die empty_load
            else load_tainted fuel ls 0)
          r
  taint_union_load fuel ls (suc m) r =
      let label0 = label_at r ls 0 in
      if label0 == initializing_label
      then ok initializing_label r
      else (do
        assert (ltb label0 const_offset || not ((r.label_info label0).size == 0))
        if is_constant_label label0 && all_constant r ls 1 m
            then pure const_label
            else load_tainted fuel ls (suc m))
          r

-- `ls[i] = l` for `rounds` labels from `ls[i]` on.
unfoldable pub fill : ℕ → ℕ → ℕ → ℕ → Run Runtime (Unit {0})
fill l ls i zero = pure tt
fill l ls i (suc rounds) = do set_label_at ls i l; fill l ls (i + 1) rounds

-- `ls[i] = label0 + i`.
unfoldable pub fill_consecutive : ℕ → ℕ → ℕ → ℕ → Run Runtime (Unit {0})
fill_consecutive label0 ls i zero = pure tt
fill_consecutive label0 ls i (suc rounds) = do
  set_label_at ls i (u32 (label0 + i))
  fill_consecutive label0 ls (i + 1) rounds

module _ ⦃ops : Opcodes⦄ where
  -- `ls[i]` gets the extract of the byte `i` of `l`.
  unfoldable pub fill_extracts : ℕ → ℕ → ℕ → ℕ → Run Runtime (Unit {0})
  fill_extracts l ls i zero = pure tt
  fill_extracts l ls i (suc rounds) = do
    label ← taint_union l const_label op_extract 8 0 (u64 (i * 8))
    set_label_at ls i label
    fill_extracts l ls (i + 1) rounds

  unfoldable pub taint_union_store : ℕ → ℕ → ℕ → Run Runtime (Unit {0})
  taint_union_store l ls n r =
      let info = r.label_info l in
      if l == initializing_label
      then fill l ls 0 n r
      else if not (leb l r.last_label)
      then died assertion_failed r
      else if l == 0
      then fill l ls 0 n r
      else if n == 1 && info.size == 8
      then set_label_at ls 0 l r
      else if is_kind_of_label r l op_load
      then fill_consecutive info.l1 ls 0 n r
      else fill_extracts l ls 0 n r

  -- The interface for the instrumented program and the custom functions: an address of the
  -- application instead of one of shadow memory.
  unfoldable pub dfsan_store_label : ℕ → ℕ → ℕ → Run Runtime (Unit {0})
  dfsan_store_label l addr size r =
      if l == 0 then ok tt r else taint_union_store l (shadow_for addr) size r

  unfoldable pub dfsan_read_label : ℕ → ℕ → ℕ → Run Runtime ℕ
  dfsan_read_label fuel addr size r =
      if size == 0 then ok 0 r else taint_union_load fuel (shadow_for addr) size r

unfoldable pub dfsan_get_label : Runtime → ℕ → ℕ
dfsan_get_label r addr = r.shadow (shadow_for addr)

-- Labels that already hold the value are not written.
unfoldable pub set_labels : ℕ → ℕ → ℕ → Run Runtime (Unit {0})
set_labels label labelp zero r = ok tt r
set_labels label labelp (suc size) r =
    let r' = record r { shadow = update r.shadow labelp label } in
    set_labels label (labelp + 4) size (if label == r.shadow labelp then r else r')

unfoldable pub dfsan_set_label : ℕ → ℕ → ℕ → Run Runtime (Unit {0})
dfsan_set_label label addr size = set_labels label (shadow_for addr) size

module _ ⦃ops : Opcodes⦄ where
  unfoldable pub add_labels : ℕ → ℕ → ℕ → ℕ → Run Runtime (Unit {0})
  add_labels label op labelp zero r = ok tt r
  add_labels label op labelp (suc size) r =
      (do
        joined ← taint_union (r.shadow labelp) label op 1 0 0
        set_label_at labelp 0 joined
        add_labels label op (labelp + 4) size)
        r

  unfoldable pub dfsan_add_label : ℕ → ℕ → ℕ → ℕ → Run Runtime (Unit {0})
  dfsan_add_label label op addr size = add_labels label (u8 op) (shadow_for addr) size
