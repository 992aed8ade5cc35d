-- ===== src/Pass/Reference/Block.antt =====
-- TaintPass.cc: what the instrumented code of a sequence of instructions does, against the
-- propagation of every label.
use kirenenko.Prelude.{
  All, ℕ, ◌+◌, ◌≡◌, refl, sym, ap, arith, Bool, false, none, some, List, [], ◌∷◌,
}
use kirenenko.Run.{Step, ok, died, ◌>>◌}
use kirenenko.Operators.{Opcodes}
use kirenenko.Runtime.{Runtime}
use kirenenko.Pass.{no_shadows, Inst, Options, TaintFunction, get_shadow, set_shadow}
use kirenenko.Pass.Visit.{visit_inst, instrument}
use kirenenko.Pass.Machine.{
  Machine, Application, label_of, exec, exec_block, observe, step_application,
}
use kirenenko.Pass.Reference.{propagate_inst, tracked_after, propagate_block}
use kirenenko.Pass.Reference.Relation.{Agrees, EndAlike, Agrees-rest}
use kirenenko.Pass.Reference.Insts.{IsLlvm, visit_inst-EndAlike}

-- The visitors and the propagation agree on the `alloca`s whose shadow is a variable.
visit_inst-tracked :
    ⦃ops : Opcodes⦄ (o : Options) (n : ℕ) (tf : TaintFunction) (nosanitize : Bool) (i : Inst)
    → (visit_inst o n tf nosanitize i).1.alloca_shadow_map ≡ tracked_after tf.alloca_shadow_map n i
unfolding visit_inst tracked_after set_shadow
visit_inst-tracked o n tf b (Inst.binary op x y) = ground arith
visit_inst-tracked o n tf b (Inst.cast op x t) = ground arith
visit_inst-tracked o n tf b (Inst.icmp op p x y) = ground arith
visit_inst-tracked o n tf b (Inst.fcmp op p x y) = ground arith
visit_inst-tracked o n tf b (Inst.load t addr objects) = ground arith
visit_inst-tracked o n tf b (Inst.store v addr) = ground arith
visit_inst-tracked o n tf b (Inst.alloca users) = refl
visit_inst-tracked o n tf b (Inst.select c t f) = refl
visit_inst-tracked o n tf b (Inst.branch none) = refl
visit_inst-tracked o n tf b (Inst.branch (some c)) = ground arith
visit_inst-tracked o n tf b (Inst.switch c cases) = ground arith
visit_inst-tracked o n tf b (Inst.get_element_ptr t indices) = ground arith
visit_inst-tracked o n tf b (Inst.mem_set dest v len) = refl
visit_inst-tracked o n tf b (Inst.mem_transfer dest src len) = refl
visit_inst-tracked o n tf b (Inst.ret none) = refl
visit_inst-tracked o n tf b (Inst.ret (some v)) = ground arith
visit_inst-tracked o n tf b Inst.untracked = refl

-- The application itself, behind code that ended alike.
step-Agrees :
    {o : Options} {a : Application} {tf : TaintFunction} {n : ℕ} {m r : Machine}
    → Agrees o a tf n m r
    → (k : ℕ) → EndAlike o a tf n (step_application a k m) (step_application a k r)
unfolding step_application
step-Agrees {o} {a} {tf} {n} {m} {r} h k =
    let step : Runtime → Runtime = λ q. record q { memory = a.memory_after k q.memory } in
    Agrees-rest h (record m { runtime = step m.runtime }) (record r { runtime = step r.runtime })
      refl refl (ap step h.runtime, h.alloca_labels, h.retval_tls, h.events)

-- Two runs that end alike, and continue in the same way from machines that agree.
then-observe :
    (o : Options) (a : Application) (tf : TaintFunction) (n : ℕ) (x y : Step Machine (Unit {0}))
    (f g : Machine → Step Machine (Unit {0}))
    → EndAlike o a tf n x y
    → ((m r : Machine) → Agrees o a tf n m r → observe (f m) ≡ observe (g r))
    → observe (elim x [ ok u s ↦ f s | died e s ↦ died e s ])
      ≡ observe (elim y [ ok u s ↦ g s | died e s ↦ died e s ])
unfolding observe
then-observe o a tf n (ok u m) (ok u' r) f g h next = next m r h
then-observe o a tf n (died e m) (died e' r) f g h next = ground (arith, h.0, h.1)
then-observe o a tf n (ok u m) (died e r) f g h next = absurd h
then-observe o a tf n (died e m) (ok u r) f g h next = absurd h

instrument-observe :
    ⦃ops : Opcodes⦄ (o : Options) (a : Application) (is : List (Bool × Inst)) (tf : TaintFunction)
    (n : ℕ) (m r : Machine)
    → All (λ i. IsLlvm i.1) is
    → Agrees o a tf n m r
    → observe (exec_block a n (instrument o n is tf) m)
      ≡ observe (propagate_block o a tf.alloca_shadow_map n is r)
unfolding instrument exec_block propagate_block observe
instrument-observe o a [] tf n m r llvm h = ground (arith, h.runtime, h.retval_tls, h.events)
instrument-observe o a ((b, i) ∷ is) tf n m r llvm h =
    let tf' = (visit_inst o n tf b i).1 in
    rw (sym (visit_inst-tracked o n tf b i)) (
      then-observe o a tf' (n + 1) (exec a (visit_inst o n tf b i).0 m)
        (propagate_inst o a tf.alloca_shadow_map n b i r)
        (step_application a n >> exec_block a (n + 1) (instrument o (n + 1) is tf'))
        (step_application a n >> propagate_block o a tf'.alloca_shadow_map (n + 1) is)
        (visit_inst-EndAlike h b i llvm.0)
        (λ m' r' h'.
          then-observe o a tf' (n + 1) (step_application a n m') (step_application a n r')
            (exec_block a (n + 1) (instrument o (n + 1) is tf'))
            (propagate_block o a tf'.alloca_shadow_map (n + 1) is) (step-Agrees h' n)
            (λ m'' r'' h''. instrument-observe o a is tf' (n + 1) m'' r'' llvm.1 h'')))

-- The instrumented code of a sequence of instructions ends like the propagation that asks the
-- runtime about every label: with the same fault or none, the same state of the runtime, the same
-- label of the result and the same traced events. It is for instructions with operators and
-- predicates of LLVM.
pub instrument-propagate_block :
    ⦃ops : Opcodes⦄ (o : Options) (a : Application) (is : List (Bool × Inst)) (m : Machine)
    → All (λ i. IsLlvm i.1) is
    → observe (exec_block a 0 (instrument o 0 is no_shadows) m)
      ≡ observe (propagate_block o a (λ k. false) 0 is (record m { labels = λ k. 0 }))
unfolding no_shadows get_shadow label_of
instrument-propagate_block o a is m llvm =
    instrument-observe o a is no_shadows 0 m (record m { labels = λ k. 0 }) llvm
      (record {
        runtime = refl;
        alloca_labels = refl;
        retval_tls = refl;
        events = refl;
        before = λ k s e. cc;
        labels = λ k t. refl;
      })
