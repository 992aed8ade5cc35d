-- ===== src/Pass/Reference/Insts.antt =====
-- TaintPass.cc: the code that each visitor inserts, against the propagation of every label.
use kirenenko.Prelude.{
  ℕ, ◌+◌, ◌≤◌, ◌<◌, ◌≢◌, refl, sym, ap, arith, Bool, Bool-cases, true, false, not, ◌&&◌, ◌||◌, inl,
  inr, none, some, [], ◌∷◌, ◌==◌, if◌then◌else◌, update,
}
use kirenenko.Run.{Step, ok, died}
use kirenenko.Operators.{Opcodes, op_fsize}
use kirenenko.Mapping.{shadow_for}
use kirenenko.Runtime.{Runtime}
use kirenenko.Shadow.{dfsan_set_label}
use kirenenko.Custom.Copy.{move_labels}
use kirenenko.Pass.{
  IrType, Inst, is_floating_point, store_size, is_constant_one, all_loads_stores, Value, type_of,
  size_in_bits, zero_shadow, Code, Options, TaintFunction, get_shadow, set_shadow,
}
use kirenenko.Pass.Combine.{
  binary_op, binary_operation, cast_operation, compare_operation, Operation, union_op,
  combine_shadows, visit_condition,
}
use kirenenko.Pass.Visit.{
  visit_inst, without_shadow, visit_gep_inst, array_indices, visit_switch_inst,
}
use kirenenko.Pass.Machine.{
  Machine, Application, label_of, value_of, operand_bits, exec_code, exec, set_shadow_memory,
  labels_moved,
}
use kirenenko.Pass.Stores.{get_shadow_address-shadow_for, compare_op-fsize}
use kirenenko.Pass.Reference.{
  propagate_inst, value_label, propagate, trace_condition, trace_each_case, trace_each_index,
}
use kirenenko.Pass.Reference.Relation.{
  Agrees, EndAlike, Agrees-label, Agrees-shadow, Agrees-next, Agrees-rest,
}
use kirenenko.Pass.Reference.Steps.{combine_shadows-EndAlike, zero-EndAlike}
use kirenenko.Pass.Reference.Memory.{run-EndAlike, load_shadow-EndAlike, store_shadow-EndAlike}
use kirenenko.Pass.Reference.Traces.{
  visit_condition-EndAlike, visit_switch_inst-EndAlike, trace_indices-EndAlike,
  visit_select_inst-EndAlike,
}

-- The numbers that LLVM gives its operators and predicates.
abbrev pub IsLlvm : ⦃ops : Opcodes⦄ → Inst → Type 0
IsLlvm ⦃ops⦄ (Inst.binary op x y) = op ≤ ops.last_llvm_op
IsLlvm ⦃ops⦄ (Inst.cast op x t) = op ≤ ops.last_llvm_op
IsLlvm ⦃ops⦄ (Inst.icmp op p x y) = (op ≤ ops.last_llvm_op) × (p < 64)
IsLlvm ⦃ops⦄ (Inst.fcmp op p x y) = (op ≤ ops.last_llvm_op) × (p < 64)
IsLlvm _ = Unit

binary_op-fsize :
    ⦃ops : Opcodes⦄ (op : ℕ) (x y : Value)
    → op ≤ ops.last_llvm_op
    → union_op (binary_op op x y) (binary_operation x y) ≢ op_fsize
unfolding union_op binary_op
binary_op-fsize ⦃ops⦄ op x y le =
    let b =
      size_in_bits (type_of x) == 1
      && op == ops.op_xor
      && (is_constant_one y || is_constant_one x) in
    elim (Bool-cases b) [ inl e ↦ rw (e) (omega arith) | inr e ↦ rw (e) (omega (arith, le)) ]

cast_op-fsize :
    ⦃ops : Opcodes⦄ (op : ℕ) (x : Value) (t : IrType)
    → op ≤ ops.last_llvm_op
    → union_op op (cast_operation x t) ≢ op_fsize
unfolding union_op
cast_op-fsize op x t le = omega (arith, le)

compare_operation-fsize :
    ⦃ops : Opcodes⦄ (op p : ℕ) (x y : Value)
    → (op ≤ ops.last_llvm_op) × (p < 64)
    → union_op op (compare_operation p x y) ≢ op_fsize
unfolding union_op
compare_operation-fsize op p x y (le, lt) = compare_op-fsize op p le lt

EndAlike-next :
    (o : Options) (a : Application) (tf : TaintFunction) (n : ℕ) (x y : Step Machine (Unit {0}))
    → EndAlike o a tf n x y
    → EndAlike o a tf (n + 1) x y
EndAlike-next o a tf n (ok u m) (ok u' r) h = Agrees-next h
EndAlike-next o a tf n (died e m) (died e' r) h = h
EndAlike-next o a tf n (ok u m) (died e' r) h = h
EndAlike-next o a tf n (died e m) (ok u' r) h = h

module _ ⦃ops : Opcodes⦄ {o : Options} {a : Application} {tf : TaintFunction} {n : ℕ}
    {m r : Machine} (h : Agrees o a tf n m r) where
  combine-EndAlike :
      (x y : Value) (op : ℕ) (i : Operation)
      → union_op op i ≢ op_fsize
      → EndAlike o a
          (set_shadow n (combine_shadows o n (get_shadow o tf x) (get_shadow o tf y) op i).1 tf)
          (n + 1)
          (exec a (combine_shadows o n (get_shadow o tf x) (get_shadow o tf y) op i).0 m)
          (propagate o a n (value_label o a r x) (value_label o a r y) op i r)
  combine-EndAlike x y op i known =
      rw (sym (Agrees-label h x), sym (Agrees-label h y))
        (combine_shadows-EndAlike h (get_shadow o tf x) (get_shadow o tf y) op i known)

  cast-EndAlike :
      (x : Value) (op : ℕ) (i : Operation)
      → union_op op i ≢ op_fsize
      → EndAlike o a
          (set_shadow n (combine_shadows o n (get_shadow o tf x) zero_shadow op i).1 tf)
          (n + 1)
          (exec a (combine_shadows o n (get_shadow o tf x) zero_shadow op i).0 m)
          (propagate o a n (value_label o a r x) 0 op i r)
  unfolding label_of
  cast-EndAlike x op i known =
      rw (sym (Agrees-label h x))
        (combine_shadows-EndAlike h (get_shadow o tf x) zero_shadow op i known)

  alloca-Agrees :
      (tracked : ℕ → Bool)
      → Agrees o a
          (set_shadow n zero_shadow (record tf { alloca_shadow_map = tracked }))
          (n + 1)
          m
          (record r { labels = update r.labels n 0 })
  unfolding get_shadow set_shadow label_of
  alloca-Agrees tracked =
      let k = Agrees-shadow h zero_shadow 0 tt refl in
      record {
        runtime = k.runtime;
        alloca_labels = k.alloca_labels;
        retval_tls = k.retval_tls;
        events = k.events;
        before = k.before;
        labels = k.labels;
      }

  -- The copy of the labels of a block of memory.
  transfer-EndAlike :
      (dest src len : Value)
      → EndAlike o a tf (n + 1) (exec a (Code.transfer_shadow dest src len ∷ []) m) (
          set_shadow_memory
            (move_labels
              (shadow_for (value_of a dest))
              (shadow_for (value_of a src))
              (labels_moved a len)
              r.runtime.shadow
              r.runtime.shadow)
            r)
  unfolding exec exec_code
  transfer-EndAlike dest src len =
      let d = get_shadow_address-shadow_for (value_of a dest) in
      let s = get_shadow_address-shadow_for (value_of a src) in
      let run : Runtime → Runtime = λ q. record q {
        shadow =
            move_labels (shadow_for (value_of a dest)) (shadow_for (value_of a src))
              (labels_moved a len) q.shadow q.shadow;
      } in
      rw (d, s)
        (Agrees-next (
          Agrees-rest h (record m { runtime = run m.runtime })
            (record r { runtime = run r.runtime }) refl refl
            (ap run h.runtime, h.alloca_labels, h.retval_tls, h.events)))

  ret-EndAlike :
      (v : Value) (native : Bool)
      → let code = Code.store_retval (get_shadow o tf v) ∷ [] in
        let result = if native then without_shadow tf [] else without_shadow tf code in
        EndAlike o a result.1
          (n + 1)
          (exec a result.0 m)
          (if native then ok tt r else ok tt (record r { retval_tls = value_label o a r v }))
  unfolding exec exec_code
  ret-EndAlike v true = Agrees-next h
  ret-EndAlike v false = Agrees-next (
      Agrees-rest h (record m { retval_tls = label_of a m (get_shadow o tf v) })
        (record r { retval_tls = value_label o a r v }) refl refl
        (h.runtime, h.alloca_labels, Agrees-label h v, h.events))

  pub visit_inst-EndAlike :
      (nosanitize : Bool) (i : Inst)
      → IsLlvm i
      → EndAlike o a
          (visit_inst o n tf nosanitize i).1
          (n + 1)
          (exec a (visit_inst o n tf nosanitize i).0 m)
          (propagate_inst o a tf.alloca_shadow_map n nosanitize i r)
  unfolding visit_inst propagate_inst exec exec_code visit_gep_inst
  visit_inst-EndAlike b (Inst.binary op x y) llvm =
      elim (Bool-cases (b || is_floating_point (type_of x))) [
        | inl e ↦ rw (e) (Agrees-next h)
        | inr e ↦ rw (e) (
            combine-EndAlike x y (binary_op op x y) (binary_operation x y)
              (binary_op-fsize op x y llvm))
      ]
  visit_inst-EndAlike b (Inst.cast op x t) llvm = elim (Bool-cases b) [
    | inl e ↦ rw (e) (Agrees-next h)
    | inr e ↦ rw (e) (cast-EndAlike x op (cast_operation x t) (cast_op-fsize op x t llvm))
  ]
  visit_inst-EndAlike b (Inst.icmp op p x y) llvm = elim (Bool-cases (b)) [
    | inl e ↦ rw (e) (Agrees-next h)
    | inr e ↦
        rw (e) (
          combine-EndAlike x y op (compare_operation p x y) (compare_operation-fsize op p x y llvm))
  ]
  visit_inst-EndAlike b (Inst.fcmp op p x y) llvm = elim (Bool-cases (b || not o.trace_fp)) [
    | inl e ↦ rw (e) (Agrees-next h)
    | inr e ↦
        rw (e) (
          combine-EndAlike x y op (compare_operation p x y) (compare_operation-fsize op p x y llvm))
  ]
  visit_inst-EndAlike b (Inst.load t addr objects) llvm = elim (Bool-cases b) [
    | inl e ↦ rw (e) (Agrees-next h)
    | inr e ↦ elim (Bool-cases (store_size t == 0)) [
      | inl z ↦ rw (e, z) (zero-EndAlike h refl)
      | inr z ↦ rw (e, z) (load_shadow-EndAlike h addr (store_size t) objects)
    ]
  ]
  visit_inst-EndAlike b (Inst.store v addr) llvm =
      elim (Bool-cases (b || store_size (type_of v) == 0)) [
        | inl e ↦ rw (e) (Agrees-next h)
        | inr e ↦ rw (e) (store_shadow-EndAlike h v addr (store_size (type_of v)))
      ]
  visit_inst-EndAlike b (Inst.alloca users) llvm =
      alloca-Agrees (
        if all_loads_stores users then update tf.alloca_shadow_map n true else tf.alloca_shadow_map)
  visit_inst-EndAlike b (Inst.select c t f) llvm = visit_select_inst-EndAlike o a tf n c t f m r h
  visit_inst-EndAlike b (Inst.branch none) llvm = Agrees-next h
  visit_inst-EndAlike true (Inst.branch (some c)) llvm = Agrees-next h
  visit_inst-EndAlike false (Inst.branch (some c)) llvm =
      EndAlike-next o a tf n (exec a (visit_condition o tf c) m) (trace_condition o a c r)
        (visit_condition-EndAlike o a tf n c m r h)
  visit_inst-EndAlike true (Inst.switch c cases) llvm = Agrees-next h
  visit_inst-EndAlike false (Inst.switch c cases) llvm =
      EndAlike-next o a tf n (exec a (visit_switch_inst o tf c cases) m)
        (trace_each_case o a c cases r) (visit_switch_inst-EndAlike o a tf n c cases m r h)
  visit_inst-EndAlike b (Inst.get_element_ptr t indices) llvm =
      elim (Bool-cases (not o.trace_gep_offset || b)) [
        | inl e ↦ rw (e) (Agrees-next h)
        | inr e ↦ rw (e) (
            EndAlike-next o a tf n (exec a (visit_gep_inst o tf t indices) m)
              (trace_each_index o a (array_indices t indices) r)
              (trace_indices-EndAlike o a tf n (array_indices t indices) m r h))
      ]
  visit_inst-EndAlike b (Inst.mem_set dest v len) llvm = rw (sym (Agrees-label h v)) (
      run-EndAlike h
        (dfsan_set_label (label_of a m (get_shadow o tf v)) (value_of a dest) (operand_bits a len)))
  visit_inst-EndAlike b (Inst.mem_transfer dest src len) llvm = transfer-EndAlike dest src len
  visit_inst-EndAlike b (Inst.ret none) llvm = Agrees-next h
  visit_inst-EndAlike b (Inst.ret (some v)) llvm = ret-EndAlike v o.is_native_abi
  visit_inst-EndAlike b Inst.untracked llvm = Agrees-next h
