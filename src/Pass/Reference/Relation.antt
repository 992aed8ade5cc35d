-- ===== src/Pass/Reference/Relation.antt =====
-- How the machine of the inserted code stands to the one that propagates every label.
use kirenenko.Prelude.{
  ℕ, ◌+◌, ◌<◌, ◌≡◌, refl, sym, ap, ◌∙◌, subst, arith, Bool-cases, Option-cases, inl, inr, Option,
  none, some, ◌==◌, update,
}
use kirenenko.Run.{Fault, Step, ok, died}
use kirenenko.Pass.{
  IrType, Value, Shadow, zero_shadow, of_argument, of_instruction, Options, TaintFunction,
  get_shadow, set_shadow,
}
use kirenenko.Runtime.{Runtime}
use kirenenko.Pass.Machine.{Machine, Application, label_of}
use kirenenko.Pass.Reference.{value_label}

-- A shadow that is a value of code before the instruction `n`.
abbrev pub IsBefore : ℕ → Shadow → Type 0
IsBefore n zero_shadow = Unit
IsBefore n (of_argument i) = Unit
IsBefore n (of_instruction k) = k < n

-- Before the instruction `n`, the two machines agree on all labels, as the pass finds them.
pub record Agrees (o : Options) (a : Application) (tf : TaintFunction) (n : ℕ) (m r : Machine)
    : Type 0 where
  pub runtime : m.runtime ≡ r.runtime
  pub alloca_labels : m.alloca_labels ≡ r.alloca_labels
  pub retval_tls : m.retval_tls ≡ r.retval_tls
  pub events : m.events ≡ r.events
  pub before : (k : ℕ) (s : Shadow) → tf.val_shadow_map k ≡ some s → (k < n) × IsBefore n s
  pub labels :
      (k : ℕ) (t : IrType) → label_of a m (get_shadow o tf (Value.instruction k t)) ≡ r.labels k

-- Both ways to run end alike: in machines that agree, or with the same fault of the runtime.
abbrev pub EndAlike :
    Options
    → Application
    → TaintFunction
    → ℕ
    → Step Machine (Unit {0})
    → Step Machine (Unit {0})
    → Type 0
EndAlike o a tf n (ok u m) (ok u' r) = Agrees o a tf n m r
EndAlike o a tf n (died e m) (died e' r) = (e ≡ e') × (m.runtime ≡ r.runtime)
EndAlike o a tf n (ok u m) (died e r) = ⊥
EndAlike o a tf n (died e m) (ok u r) = ⊥

module _ {o : Options} {a : Application} {tf : TaintFunction} {n : ℕ} {m r : Machine} where
  -- A shadow stands for the label of its value.
  pub Agrees-label :
      Agrees o a tf n m r → (v : Value) → label_of a m (get_shadow o tf v) ≡ value_label o a r v
  unfolding get_shadow label_of value_label
  Agrees-label h (Value.argument i t) = ground arith
  Agrees-label h (Value.instruction k t) = h.labels k t
  Agrees-label h (Value.constant_int c w) = refl
  Agrees-label h (Value.constant c t) = refl

  pub get_shadow-IsBefore : Agrees o a tf n m r → (v : Value) → IsBefore n (get_shadow o tf v)
  unfolding get_shadow
  get_shadow-IsBefore h (Value.argument i t) = elim (Bool-cases o.is_native_abi) [
    | inl e ↦ rw (e) tt
    | inr e ↦ rw (e) tt
  ]
  get_shadow-IsBefore h (Value.instruction k t) = elim (Option-cases (tf.val_shadow_map k)) [
    | inl e ↦
        subst (λ (q : Option Shadow). IsBefore n (elim q [ none ↦ zero_shadow | some s ↦ s ]))
          (sym e) tt
    | inr (s, e) ↦
        subst (λ (q : Option Shadow). IsBefore n (elim q [ none ↦ zero_shadow | some s ↦ s ]))
          (sym e) (h.before k s e).1
  ]
  get_shadow-IsBefore h (Value.constant_int c w) = tt
  get_shadow-IsBefore h (Value.constant c t) = tt

pub IsBefore-next : (n : ℕ) (s : Shadow) → IsBefore n s → IsBefore (n + 1) s
IsBefore-next n zero_shadow b = tt
IsBefore-next n (of_argument i) b = tt
IsBefore-next n (of_instruction k) b = omega (arith, b)

-- A new value of the code does not change what the shadows before it stand for.
pub label_of-update :
    (a : Application) (n : ℕ) (m : Machine) (run : Runtime) (l : ℕ) (s : Shadow)
    → IsBefore n s
    → label_of a (record m { runtime = run; labels = update m.labels n l }) s ≡ label_of a m s
unfolding label_of
label_of-update a n m run l zero_shadow b = refl
label_of-update a n m run l (of_argument i) b = refl
label_of-update a n m run l (of_instruction k) b = ground (arith, b)

module _ {o : Options} {a : Application} {tf : TaintFunction} {n : ℕ} {m r : Machine} where
  -- The instruction `n` gets the shadow `s` here and the label that `s` stands for there.
  pub Agrees-set :
      Agrees o a tf n m r
      → (s : Shadow) (run run' : Runtime) (values : ℕ → ℕ) (l : ℕ) → run ≡ run'
      → IsBefore (n + 1) s
      → label_of a (record m { runtime = run; labels = values }) s ≡ l
      → ((s' : Shadow)
          → IsBefore n s'
          → label_of a (record m { runtime = run; labels = values }) s' ≡ label_of a m s')
      → Agrees o a
          (set_shadow n s tf)
          (n + 1)
          (record m { runtime = run; labels = values })
          (record r { runtime = run'; labels = update r.labels n l })
  unfolding set_shadow get_shadow
  Agrees-set h s run run' values l same_run b e keep = record {
    runtime = same_run;
    alloca_labels = h.alloca_labels;
    retval_tls = h.retval_tls;
    events = h.events;
    before = λ k s' found. elim (Bool-cases (k == n)) [
      | inl same ↦ ground (arith, b)
      | inr other ↦
          let old = h.before k s' (rw (other) at found) in
          (omega (arith, old.0), IsBefore-next n s' old.1)
    ];
    labels = λ k t. elim (Bool-cases (k == n)) [
      | inl same ↦ ground arith
      | inr other ↦ elim (Option-cases (tf.val_shadow_map k)) [
        | inl none' ↦ ground (arith, h.labels k t, keep zero_shadow tt)
        | inr (s', found) ↦ ground (arith, h.labels k t, keep s' (h.before k s' found).1)
      ]
    ];
  }

  -- Both machines give the instruction `n` the label `l`, here in a new value of the code.
  pub Agrees-register :
      Agrees o a tf n m r
      → (run : Runtime) (l : ℕ)
      → Agrees o a
          (set_shadow n (of_instruction n) tf)
          (n + 1)
          (record m { runtime = run; labels = update m.labels n l })
          (record r { runtime = run; labels = update r.labels n l })
  unfolding label_of
  Agrees-register h run l =
      Agrees-set h (of_instruction n) run run (update m.labels n l) l refl (omega arith)
        (ground arith) (label_of-update a n m run l)

  -- As before, from equal labels.
  pub Agrees-label_register :
      Agrees o a tf n m r
      → {l l' : ℕ} → l ≡ l'
      → Agrees o a
          (set_shadow n (of_instruction n) tf)
          (n + 1)
          (record m { labels = update m.labels n l })
          (record r { labels = update r.labels n l' })
  unfolding label_of
  Agrees-label_register h {l} {l'} e =
      Agrees-set h (of_instruction n) m.runtime r.runtime (update m.labels n l) l' h.runtime
        (omega arith) (ground (arith, e)) (label_of-update a n m m.runtime l)

  -- The instruction `n` has a shadow that is there already.
  pub Agrees-shadow :
      Agrees o a tf n m r
      → (s : Shadow) (l : ℕ) → IsBefore n s
      → label_of a m s ≡ l
      → Agrees o a (set_shadow n s tf) (n + 1) m (record r { labels = update r.labels n l })
  Agrees-shadow h s l b e =
      Agrees-set h s m.runtime r.runtime m.labels l h.runtime (IsBefore-next n s b) e
        (λ s' b'. refl)

  -- The instruction `n` has no shadow.
  pub Agrees-next : Agrees o a tf n m r → Agrees o a tf (n + 1) m r
  Agrees-next h = record {
    runtime = h.runtime;
    alloca_labels = h.alloca_labels;
    retval_tls = h.retval_tls;
    events = h.events;
    before = λ k s found.
        let old = h.before k s found in (omega (arith, old.0), IsBefore-next n s old.1);
    labels = h.labels;
  }

pub label_of-labels :
    (a : Application) (m m' : Machine) (s : Shadow)
    → m'.labels ≡ m.labels
    → label_of a m' s ≡ label_of a m s
unfolding label_of
label_of-labels a m m' zero_shadow e = refl
label_of-labels a m m' (of_argument i) e = refl
label_of-labels a m m' (of_instruction k) e = ap (λ (f : ℕ → ℕ). f k) e

-- Something else than the labels of the instructions changes, alike in both machines.
pub Agrees-rest :
    {o : Options} {a : Application} {tf : TaintFunction} {n : ℕ} {m r : Machine}
    → Agrees o a tf n m r
    → (m' r' : Machine) → m'.labels ≡ m.labels
    → r'.labels ≡ r.labels
    → (m'.runtime ≡ r'.runtime)
      × (m'.alloca_labels ≡ r'.alloca_labels)
      × (m'.retval_tls ≡ r'.retval_tls)
      × (m'.events ≡ r'.events)
    → Agrees o a tf n m' r'
Agrees-rest {o} {a} {tf} {n} {m} {r} h m' r' e e' (runtime, alloca_labels, retval_tls, events) =
    record {
      runtime = runtime;
      alloca_labels = alloca_labels;
      retval_tls = retval_tls;
      events = events;
      before = h.before;
      labels = λ k t.
          label_of-labels a m m' (get_shadow o tf (Value.instruction k t)) e
          ∙ h.labels k t
          ∙ sym (ap (λ (f : ℕ → ℕ). f k) e');
    }

module _ {o : Options} {a : Application} {tf : TaintFunction} {n : ℕ} where
  pub EndAlike-ok :
      {x y : Step Machine (Unit {0})} {m r : Machine}
      → x ≡ ok tt m
      → y ≡ ok tt r
      → Agrees o a tf n m r
      → EndAlike o a tf n x y
  EndAlike-ok e e' h = rw (e, e') h

pub EndAlike-died :
    (o : Options) (a : Application) (tf : TaintFunction) (n : ℕ) (m r : Machine) (f : Fault)
    {x y : Step Machine (Unit {0})}
    → x ≡ died f m
    → y ≡ died f r
    → m.runtime ≡ r.runtime
    → EndAlike o a tf n x y
EndAlike-died o a tf n m r f e e' h = rw (e, e') (refl, h)
