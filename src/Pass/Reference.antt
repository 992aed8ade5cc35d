-- ===== src/Pass/Reference.antt =====
-- The propagation of labels that TaintPass.cc inserts, without the constants that it knows: every
-- value has a label, every operation that is not filtered out asks the runtime, and every traced
-- condition, case and index is looked at.
pub mod Relation
pub mod Steps
pub mod Memory
pub mod Traces
pub mod Insts
pub mod Block
use kirenenko.Prelude.{
  ℕ, ◌+◌, Bool, true, false, ◌&&◌, ◌||◌, not, Option, none, some, List, [], ◌∷◌, ◌==◌,
  if◌then◌else◌, update,
}
use kirenenko.Run.{Run, ok, pure, ◌>>=◌, ◌>>◌}
use kirenenko.Operators.{Opcodes}
use kirenenko.Labels.{taint_union}
use kirenenko.Shadow.{taint_union_load, taint_union_store, dfsan_set_label}
use kirenenko.Mapping.{shadow_for}
use kirenenko.Custom.Copy.{move_labels}
use kirenenko.Pass.{
  IrType, store_size, size_in_bits, is_floating_point, Value, type_of, Object, Layout, Inst,
  Options, all_constants, all_loads_stores,
}
use kirenenko.Pass.Combine.{
  Operation, is_traced, union_op, union_size, binary_op, binary_operation, cast_operation,
  compare_operation, tracked_alloca,
}
use kirenenko.Pass.Visit.{array_indices, is_vector}
use kirenenko.Pass.Machine.{
  Machine, Application, traced_cmp, traced_cond, traced_gep, value_of, operand_bits,
  optional_operand_bits, on_runtime, set_register, report, set_alloca_label, set_shadow_memory,
  labels_moved, step_application,
}

-- The label of a value. A function with the native ABI gets no labels.
unfoldable pub value_label : Options → Application → Machine → Value → ℕ
value_label o a m (Value.argument i t) = if o.is_native_abi then 0 else a.argument_labels i
value_label o a m (Value.instruction k t) = m.labels k
value_label o a m _ = 0

-- The `alloca`s whose shadow is a variable, behind an instruction.
unfoldable pub tracked_after : (ℕ → Bool) → ℕ → Inst → ℕ → Bool
tracked_after tracked n (Inst.alloca users) =
    if all_loads_stores users then update tracked n true else tracked
tracked_after tracked n _ = tracked

module _ ⦃ops : Opcodes⦄ (o : Options) (a : Application) where
  unfoldable pub propagate : ℕ → ℕ → ℕ → ℕ → Operation → Run Machine (Unit {0})
  propagate n l1 l2 op i m =
      if is_traced o i
      then (on_runtime (
              taint_union l1 l2 (union_op op i) (union_size i) (operand_bits a i.operand0)
                (optional_operand_bits a i.operand1))
            >>= set_register n)
          m
      else set_register n 0 m

  unfoldable pub load_label : (ℕ → Bool) → ℕ → Value → ℕ → List Object → Run Machine (Unit {0})
  load_label tracked n addr size objects m = elim (tracked_alloca tracked addr) [
    | some k ↦ set_register n (m.alloca_labels k) m
    | none ↦
        if all_constants objects || size == 0
        then set_register n 0 m
        else (on_runtime (taint_union_load size (shadow_for (value_of a addr)) size)
              >>= set_register n)
            m
  ]

  unfoldable pub store_label : (ℕ → Bool) → Value → ℕ → ℕ → Run Machine (Unit {0})
  store_label tracked addr size l m = elim (tracked_alloca tracked addr) [
    | some k ↦ set_alloca_label k l m
    | none ↦ on_runtime (taint_union_store l (shadow_for (value_of a addr)) size) m
  ]

  unfoldable pub trace_condition : Value → Run Machine (Unit {0})
  trace_condition c m =
      let l = value_label o a m c in report (not (l == 0)) (traced_cond l (value_of a c)) m

  unfoldable pub trace_each_case : Value → List ℕ → Run Machine (Unit {0})
  trace_each_case c [] m = ok tt m
  trace_each_case c (v ∷ cases) m =
      let l = value_label o a m c in
      let size = size_in_bits (type_of c) in
      (do
        report (not (l == 0))
            (traced_cmp l size 32 (operand_bits a c) (operand_bits a (Value.constant_int v size)))
        trace_each_case c cases)
        m

  unfoldable pub trace_each_index : List Value → Run Machine (Unit {0})
  trace_each_index [] m = ok tt m
  trace_each_index (i ∷ is) m =
      let l = value_label o a m i in
      (do report (not (l == 0)) (traced_gep l (operand_bits a i)); trace_each_index is) m

  unfoldable pub select_label : ℕ → Value → Value → Value → Run Machine (Unit {0})
  select_label n c t f m =
      if is_vector (type_of c)
      then set_register n 0 m
      else (trace_condition c >>= λ _.
            set_register n (value_label o a m (if value_of a c == 1 then t else f)))
          m

  -- One instruction. `tracked` are the `alloca`s whose shadow is a variable.
  unfoldable pub propagate_inst : (ℕ → Bool) → ℕ → Bool → Inst → Run Machine (Unit {0})
  propagate_inst tracked n nosanitize (Inst.binary op x y) m =
      if nosanitize || is_floating_point (type_of x)
      then ok tt m
      else propagate n (value_label o a m x) (value_label o a m y) (binary_op op x y)
          (binary_operation x y) m
  propagate_inst tracked n nosanitize (Inst.cast op x t) m =
      if nosanitize then ok tt m else propagate n (value_label o a m x) 0 op (cast_operation x t) m
  propagate_inst tracked n nosanitize (Inst.icmp op p x y) m =
      if nosanitize
      then ok tt m
      else propagate n (value_label o a m x) (value_label o a m y) op (compare_operation p x y) m
  propagate_inst tracked n nosanitize (Inst.fcmp op p x y) m =
      if nosanitize || not o.trace_fp
      then ok tt m
      else propagate n (value_label o a m x) (value_label o a m y) op (compare_operation p x y) m
  propagate_inst tracked n nosanitize (Inst.load t addr objects) m =
      if nosanitize
      then ok tt m
      else if store_size t == 0
      then set_register n 0 m
      else load_label tracked n addr (store_size t) objects m
  propagate_inst tracked n nosanitize (Inst.store v addr) m =
      if nosanitize || store_size (type_of v) == 0
      then ok tt m
      else store_label tracked addr (store_size (type_of v)) (value_label o a m v) m
  propagate_inst tracked n nosanitize (Inst.alloca users) m = set_register n 0 m
  propagate_inst tracked n nosanitize (Inst.select c t f) m = select_label n c t f m
  propagate_inst tracked n nosanitize (Inst.branch none) m = ok tt m
  propagate_inst tracked n nosanitize (Inst.branch (some c)) m =
      if nosanitize then ok tt m else trace_condition c m
  propagate_inst tracked n nosanitize (Inst.switch c cases) m =
      if nosanitize then ok tt m else trace_each_case c cases m
  propagate_inst tracked n nosanitize (Inst.get_element_ptr t indices) m =
      if not o.trace_gep_offset || nosanitize
      then ok tt m
      else trace_each_index (array_indices t indices) m
  propagate_inst tracked n nosanitize (Inst.mem_set dest v len) m =
      on_runtime (dfsan_set_label (value_label o a m v) (value_of a dest) (operand_bits a len)) m
  propagate_inst tracked n nosanitize (Inst.mem_transfer dest src len) m =
      set_shadow_memory
        (move_labels (shadow_for (value_of a dest)) (shadow_for (value_of a src))
          (labels_moved a len) m.runtime.shadow m.runtime.shadow)
        m
  propagate_inst tracked n nosanitize (Inst.ret none) m = ok tt m
  propagate_inst tracked n nosanitize (Inst.ret (some v)) m =
      if o.is_native_abi then ok tt m else ok tt (record m { retval_tls = value_label o a m v })
  propagate_inst tracked n nosanitize Inst.untracked m = ok tt m

  unfoldable pub propagate_block : (ℕ → Bool) → ℕ → List (Bool × Inst) → Run Machine (Unit {0})
  propagate_block tracked n [] m = ok tt m
  propagate_block tracked n ((nosanitize, i) ∷ is) m =
      (do
        propagate_inst tracked n nosanitize i
        step_application a n
        propagate_block (tracked_after tracked n i) (n + 1) is)
        m
