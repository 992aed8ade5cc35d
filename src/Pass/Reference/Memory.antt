-- ===== src/Pass/Reference/Memory.antt =====
-- The loads and stores of labels that TaintPass.cc inserts, against the calls of the runtime.
use kirenenko.Prelude.{
  ℕ, ◌+◌, ◌≡◌, refl, sym, ap, arith, Bool-cases, Option-cases, ◌||◌, inl, inr, none, List, [], ◌∷◌,
  ◌==◌, update,
}
use kirenenko.Run.{Step, Run, Step-cases, pure, ◌>>=◌, ◌>>◌}
use kirenenko.Operators.{Opcodes}
use kirenenko.Mapping.{shadow_for}
use kirenenko.Runtime.{Runtime}
use kirenenko.Shadow.{taint_union_load, taint_union_store}
use kirenenko.Pass.{
  Value, Object, Shadow, zero_shadow, of_instruction, is_zero, Code, Options, TaintFunction,
  get_shadow, set_shadow, all_constants,
}
use kirenenko.Pass.Combine.{tracked_alloca, load_shadow, store_shadow}
use kirenenko.Pass.Machine.{
  Machine, Application, label_of, value_of, on_runtime, set_register, set_alloca_label, exec_code,
  exec, get_shadow_address, store_wide_zero,
}
use kirenenko.Pass.Stores.{get_shadow_address-shadow_for, store_wide_zero-taint_union_store}
use kirenenko.Pass.Reference.{value_label, load_label, store_label}
use kirenenko.Pass.Reference.Relation.{
  Agrees, EndAlike, EndAlike-ok, EndAlike-died, Agrees-label, Agrees-label_register, Agrees-next,
  Agrees-rest,
}
use kirenenko.Pass.Reference.Steps.{call-EndAlike, zero-EndAlike, is_zero-eq}

module _ ⦃ops : Opcodes⦄ {o : Options} {a : Application} {tf : TaintFunction} {n : ℕ}
    {m r : Machine} (h : Agrees o a tf n m r) where
  load_shadow-EndAlike_call :
      (addr : Value) (size : ℕ)
      → EndAlike o a
          (set_shadow n (of_instruction n) tf)
          (n + 1)
          (exec a (Code.call_union_load n addr size ∷ []) m)
          ((on_runtime (taint_union_load size (shadow_for (value_of a addr)) size)
              >>= set_register n)
            r)
  unfolding exec exec_code
  load_shadow-EndAlike_call addr size =
      rw (sym (get_shadow_address-shadow_for (value_of a addr)))
        (call-EndAlike h (taint_union_load size (get_shadow_address (value_of a addr)) size))

  -- From the code that is inserted and what it stands against.
  EndAlike-set :
      {c : List Code × Shadow} {y : Step Machine (Unit {0})}
      → (code : List Code) (s : Shadow) (y' : Step Machine (Unit {0})) → c ≡ (code, s)
      → y ≡ y'
      → EndAlike o a (set_shadow n s tf) (n + 1) (exec a code m) y'
      → EndAlike o a (set_shadow n c.1 tf) (n + 1) (exec a c.0 m) y
  EndAlike-set code s y' e e' alike = rw (e, e') alike

  load_shadow-EndAlike_memory :
      (addr : Value) (size : ℕ) (objects : List Object)
      → tracked_alloca tf.alloca_shadow_map addr ≡ none
      → EndAlike o a
          (set_shadow n (load_shadow tf n addr size objects).1 tf)
          (n + 1)
          (exec a (load_shadow tf n addr size objects).0 m)
          (load_label o a tf.alloca_shadow_map n addr size objects r)
  unfolding load_shadow load_label exec
  load_shadow-EndAlike_memory addr size objects e =
      elim (Bool-cases (all_constants objects || size == 0)) [
        | inl c ↦
            EndAlike-set [] zero_shadow (set_register n 0 r) (ground (arith, e, c))
              (ground (arith, e, c)) (zero-EndAlike h refl)
        | inr c ↦
            EndAlike-set (Code.call_union_load n addr size ∷ []) (of_instruction n)
              ((on_runtime (taint_union_load size (shadow_for (value_of a addr)) size)
                  >>= set_register n)
                r)
              (ground (arith, e, c)) (ground (arith, e, c)) (load_shadow-EndAlike_call addr size)
      ]

  pub load_shadow-EndAlike :
      (addr : Value) (size : ℕ) (objects : List Object)
      → EndAlike o a
          (set_shadow n (load_shadow tf n addr size objects).1 tf)
          (n + 1)
          (exec a (load_shadow tf n addr size objects).0 m)
          (load_label o a tf.alloca_shadow_map n addr size objects r)
  unfolding load_shadow load_label exec exec_code
  load_shadow-EndAlike addr size objects =
      elim (Option-cases (tracked_alloca tf.alloca_shadow_map addr)) [
        | inl e ↦ load_shadow-EndAlike_memory addr size objects e
        | inr (k, e) ↦
            EndAlike-set {c = load_shadow tf n addr size objects} (Code.load_alloca n k ∷ [])
              (of_instruction n) (set_register n (r.alloca_labels k) r) (ground (arith, e))
              (ground (arith, e))
              (Agrees-label_register h (ap (λ (f : ℕ → ℕ). f k) h.alloca_labels))
      ]

  -- A call of the runtime that changes the runtime alone.
  pub run-EndAlike :
      (f : Run Runtime (Unit {0}))
      → EndAlike o a tf (n + 1) ((on_runtime f >> pure tt) m) (on_runtime f r)
  run-EndAlike f = elim (Step-cases (f m.runtime)) [
    | inl (tt, run, e) ↦ EndAlike-ok (ground (arith, e)) (ground (arith, e, h.runtime)) (
        Agrees-next (
          Agrees-rest h (record m { runtime = run }) (record r { runtime = run }) refl refl
            (refl, h.alloca_labels, h.retval_tls, h.events)))
    | inr (x, run, e) ↦
        EndAlike-died o a tf (n + 1) (record m { runtime = run }) (record r { runtime = run }) x
          (ground (arith, e)) (ground (arith, e, h.runtime)) refl
  ]

  -- The wide zero, against the call of the runtime with the label zero.
  store_zeros-EndAlike :
      (addr : Value) (size : ℕ)
      → EndAlike o a tf
          (n + 1)
          (exec a (Code.store_zeros addr size ∷ []) m)
          (on_runtime (taint_union_store 0 (shadow_for (value_of a addr)) size) r)
  unfolding exec exec_code
  store_zeros-EndAlike addr size =
      let same = get_shadow_address-shadow_for (value_of a addr) in
      let e = store_wide_zero-taint_union_store (shadow_for (value_of a addr)) size m.runtime in
      rw (same) (
        EndAlike-ok refl (ground (arith, e, h.runtime)) (
          Agrees-next (
            Agrees-rest h
              (record m {
                runtime = record m.runtime {
                  shadow = store_wide_zero (shadow_for (value_of a addr)) size m.runtime.shadow;
                };
              })
              (record r {
                runtime = record m.runtime {
                  shadow = store_wide_zero (shadow_for (value_of a addr)) size m.runtime.shadow;
                };
              })
              refl refl (refl, h.alloca_labels, h.retval_tls, h.events))))

  -- From the code that is inserted and what it stands against.
  pub EndAlike-code :
      {c : List Code} {y : Step Machine (Unit {0})}
      → (code : List Code) (y' : Step Machine (Unit {0})) → c ≡ code
      → y ≡ y'
      → EndAlike o a tf (n + 1) (exec a code m) y'
      → EndAlike o a tf (n + 1) (exec a c m) y
  EndAlike-code code y' e e' alike = rw (e, e') alike

  store_shadow-EndAlike_memory :
      (v addr : Value) (size : ℕ)
      → tracked_alloca tf.alloca_shadow_map addr ≡ none
      → EndAlike o a tf
          (n + 1)
          (exec a (store_shadow tf addr size (get_shadow o tf v)) m)
          (store_label o a tf.alloca_shadow_map addr size (value_label o a r v) r)
  unfolding store_shadow store_label exec exec_code label_of
  store_shadow-EndAlike_memory v addr size e =
      let l = Agrees-label h v in
      let same = get_shadow_address-shadow_for (value_of a addr) in
      elim (Bool-cases (is_zero (get_shadow o tf v))) [
        | inl z ↦
            let e0 = is_zero-eq (get_shadow o tf v) z in
            EndAlike-code {c = store_shadow tf addr size (get_shadow o tf v)}
              {y = store_label o a tf.alloca_shadow_map addr size (value_label o a r v) r}
              (Code.store_zeros addr size ∷ [])
              (on_runtime (taint_union_store 0 (shadow_for (value_of a addr)) size) r)
              (ground (arith, e, z)) (rw (sym l, e0) (ground (arith, e)))
              (store_zeros-EndAlike addr size)
        | inr z ↦
            EndAlike-code {c = store_shadow tf addr size (get_shadow o tf v)}
              {y = store_label o a tf.alloca_shadow_map addr size (value_label o a r v) r}
              (Code.call_union_store (get_shadow o tf v) addr size ∷ [])
              (on_runtime
                (taint_union_store (label_of a m (get_shadow o tf v))
                  (get_shadow_address (value_of a addr)) size)
                r)
              (ground (arith, e, z)) (rw (l, same) (ground (arith, e)))
              (run-EndAlike (
                taint_union_store (label_of a m (get_shadow o tf v))
                  (get_shadow_address (value_of a addr)) size))
      ]

  -- Both write the label of one more variable.
  store_alloca-EndAlike :
      (v : Value) (k : ℕ)
      → EndAlike o a tf
          (n + 1)
          (exec a (Code.store_alloca (get_shadow o tf v) k ∷ []) m)
          (set_alloca_label k (value_label o a r v) r)
  unfolding exec exec_code
  store_alloca-EndAlike v k =
      let l = Agrees-label h v in
      rw (l) (
        Agrees-next (
          Agrees-rest h
            (record m { alloca_labels = update m.alloca_labels k (value_label o a r v) })
            (record r { alloca_labels = update r.alloca_labels k (value_label o a r v) }) refl refl
            (
              h.runtime,
              ap (λ (f : ℕ → ℕ). update f k (value_label o a r v)) h.alloca_labels,
              h.retval_tls,
              h.events,
            )))

  pub store_shadow-EndAlike :
      (v addr : Value) (size : ℕ)
      → EndAlike o a tf
          (n + 1)
          (exec a (store_shadow tf addr size (get_shadow o tf v)) m)
          (store_label o a tf.alloca_shadow_map addr size (value_label o a r v) r)
  unfolding store_shadow store_label
  store_shadow-EndAlike v addr size =
      elim (Option-cases (tracked_alloca tf.alloca_shadow_map addr)) [
        | inl e ↦ store_shadow-EndAlike_memory v addr size e
        | inr (k, e) ↦
            EndAlike-code {c = store_shadow tf addr size (get_shadow o tf v)}
              (Code.store_alloca (get_shadow o tf v) k ∷ [])
              (set_alloca_label k (value_label o a r v) r) (ground (arith, e)) (ground (arith, e))
              (store_alloca-EndAlike v k)
      ]
