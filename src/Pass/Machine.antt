-- ===== src/Pass/Machine.antt =====
-- What the code that TaintPass.cc inserts does when it runs beside the runtime of dfsan.cc.
use kirenenko.Prelude.{
  ℕ, ◌+◌, ◌-◌, ◌*◌, ◌/◌, ◌%◌, ◌^◌, bit_and, Bool, ◌&&◌, not, Option, none, some, List, [], ◌∷◌,
  ◌==◌, ltb, leb, if◌then◌else◌, update,
}
use kirenenko.Word.{u64}
use kirenenko.Run.{Fault, Step, Run, ok, died, pure, ◌>>=◌, ◌>>◌}
use kirenenko.Operators.{Opcodes}
use kirenenko.Mapping.{x86_64}
use kirenenko.Runtime.{Runtime}
use kirenenko.Labels.{taint_union}
use kirenenko.Shadow.{taint_union_load, taint_union_store, dfsan_set_label}
use kirenenko.Custom.Copy.{move_labels}
use kirenenko.Pass.{
  Value, type_of, size_in_bits, Shadow, zero_shadow, of_argument, of_instruction, Code,
}

-- A call of the functions that trace branches, which return at once for the label zero.
pub data Event : Type 0 where
  traced_cmp : ℕ → ℕ → ℕ → ℕ → ℕ → Event
  traced_cond traced_gep : ℕ → ℕ → Event

-- `labels` holds the values of the inserted code, each at the number of the instruction it is the
-- shadow of, `alloca_labels` its variables, `retval_tls` is `__dfsan_retval_tls`.
pub record Machine : Type 0 where
  pub runtime : Runtime
  pub labels : ℕ → ℕ
  pub alloca_labels : ℕ → ℕ
  pub retval_tls : ℕ
  pub events : List Event

-- One execution of the application: the bits of its values, the labels that its caller passed,
-- and what each instruction does to the memory.
pub record Application : Type 0 where
  pub arguments : ℕ → ℕ
  pub results : ℕ → ℕ
  pub argument_labels : ℕ → ℕ
  pub memory_after : ℕ → (ℕ → ℕ) → ℕ → ℕ

unfoldable pub value_of : Application → Value → ℕ
value_of a (Value.argument i t) = a.arguments i
value_of a (Value.instruction k t) = a.results k
value_of a (Value.constant_int c n) = c
value_of a (Value.constant c t) = c

-- An operand, cast to `i64`.
abbrev pub operand_bits : Application → Value → ℕ
operand_bits a v = u64 (value_of a v)

unfoldable pub optional_operand_bits : Application → Option Value → ℕ
optional_operand_bits a none = 0
optional_operand_bits a (some v) = operand_bits a v

unfoldable pub label_of : Application → Machine → Shadow → ℕ
label_of a m zero_shadow = 0
label_of a m (of_argument i) = a.argument_labels i
label_of a m (of_instruction k) = m.labels k

-- `getShadowAddress`: the address, masked and multiplied by the bytes of a label.
unfoldable pub get_shadow_address : ℕ → ℕ
get_shadow_address addr = u64 (bit_and addr x86_64.shadow_mask * (32 / 8))

-- The store of a zero of `32 * size` bits at `ls`.
unfoldable pub store_wide_zero : ℕ → ℕ → (ℕ → ℕ) → ℕ → ℕ
store_wide_zero ls size shadow a =
    if leb ls a && ltb a (ls + 4 * size) && (a - ls) % 4 == 0 then 0 else shadow a

abbrev pub on_runtime : {A : Type 0} → Run Runtime A → Run Machine A
on_runtime f m = elim (f m.runtime) [
  | ok a r ↦ ok a (record m { runtime = r })
  | died e r ↦ died e (record m { runtime = r })
]

abbrev pub set_register : ℕ → ℕ → Run Machine (Unit {0})
set_register n l m = ok tt (record m { labels = update m.labels n l })

abbrev pub report : Bool → Event → Run Machine (Unit {0})
report tainted e m = ok tt (record m { events = if tainted then e ∷ m.events else m.events })

abbrev pub set_alloca_label : ℕ → ℕ → Run Machine (Unit {0})
set_alloca_label k l m = ok tt (record m { alloca_labels = update m.alloca_labels k l })

abbrev pub set_shadow_memory : (ℕ → ℕ) → Run Machine (Unit {0})
set_shadow_memory shadow m = ok tt (record m { runtime = record m.runtime { shadow = shadow } })

-- `memcpy` or `memmove` of the shadow. The length is multiplied in its own type.
unfoldable pub labels_moved : Application → Value → ℕ
labels_moved a len = value_of a len * (32 / 8) % 2 ^ size_in_bits (type_of len) / 4

-- The instruction itself, behind the code for it.
unfoldable pub step_application : Application → ℕ → Run Machine (Unit {0})
step_application a n m =
    let r = m.runtime in
    ok tt (record m { runtime = record r { memory = a.memory_after n r.memory } })

module _ ⦃ops : Opcodes⦄ (a : Application) where
  abbrev pub exec_union :
      ℕ → Shadow → Shadow → ℕ → ℕ → Value → Option Value → Run Machine (Unit {0})
  exec_union n v1 v2 op size x y m =
      (on_runtime (
            taint_union (label_of a m v1) (label_of a m v2) op size (operand_bits a x)
              (optional_operand_bits a y))
          >>= set_register n)
        m

  abbrev pub exec_load_alloca : ℕ → ℕ → Run Machine (Unit {0})
  exec_load_alloca n k m = set_register n (m.alloca_labels k) m

  abbrev pub exec_union_load : ℕ → Value → ℕ → Run Machine (Unit {0})
  exec_union_load n addr size m =
      (on_runtime (taint_union_load size (get_shadow_address (value_of a addr)) size)
          >>= set_register n)
        m

  abbrev pub exec_store_alloca : Shadow → ℕ → Run Machine (Unit {0})
  exec_store_alloca s k m = set_alloca_label k (label_of a m s) m

  abbrev pub exec_store_zeros : Value → ℕ → Run Machine (Unit {0})
  exec_store_zeros addr size m =
      set_shadow_memory
        (store_wide_zero (get_shadow_address (value_of a addr)) size m.runtime.shadow) m

  abbrev pub exec_union_store : Shadow → Value → ℕ → Run Machine (Unit {0})
  exec_union_store s addr size m =
      on_runtime (taint_union_store (label_of a m s) (get_shadow_address (value_of a addr)) size) m

  abbrev pub exec_trace_cmp : Shadow → Shadow → ℕ → ℕ → Value → Value → Run Machine (Unit {0})
  exec_trace_cmp s s' size p x y m =
      report (not (label_of a m s == 0 && label_of a m s' == 0))
        (traced_cmp (label_of a m s) size p (operand_bits a x) (operand_bits a y)) m

  abbrev pub exec_trace_cond : Shadow → Value → Run Machine (Unit {0})
  exec_trace_cond s c m =
      report (not (label_of a m s == 0)) (traced_cond (label_of a m s) (value_of a c)) m

  abbrev pub exec_trace_gep : Shadow → Value → Run Machine (Unit {0})
  exec_trace_gep s i m =
      report (not (label_of a m s == 0)) (traced_gep (label_of a m s) (operand_bits a i)) m

  abbrev pub exec_set_label : Shadow → Value → Value → Run Machine (Unit {0})
  exec_set_label s dest len m =
      on_runtime (dfsan_set_label (label_of a m s) (value_of a dest) (operand_bits a len)) m

  abbrev pub exec_transfer : Value → Value → Value → Run Machine (Unit {0})
  exec_transfer dest src len m =
      set_shadow_memory
        (move_labels (get_shadow_address (value_of a dest)) (get_shadow_address (value_of a src))
          (labels_moved a len) m.runtime.shadow m.runtime.shadow)
        m

  abbrev pub exec_select : ℕ → Value → Shadow → Shadow → Run Machine (Unit {0})
  exec_select n c s s' m =
      set_register n (if value_of a c == 1 then label_of a m s else label_of a m s') m

  abbrev pub exec_retval : Shadow → Run Machine (Unit {0})
  exec_retval s m = ok tt (record m { retval_tls = label_of a m s })

  -- One piece of inserted code.
  unfoldable pub exec_code : Code → Run Machine (Unit {0})
  exec_code (Code.call_union n v1 v2 op size x y) = exec_union n v1 v2 op size x y
  exec_code (Code.load_alloca n k) = exec_load_alloca n k
  exec_code (Code.call_union_load n addr size) = exec_union_load n addr size
  exec_code (Code.store_alloca s k) = exec_store_alloca s k
  exec_code (Code.store_zeros addr size) = exec_store_zeros addr size
  exec_code (Code.call_union_store s addr size) = exec_union_store s addr size
  exec_code (Code.call_trace_cmp s s' size p x y) = exec_trace_cmp s s' size p x y
  exec_code (Code.call_trace_cond s c) = exec_trace_cond s c
  exec_code (Code.call_trace_gep s i) = exec_trace_gep s i
  exec_code (Code.call_set_label s dest len) = exec_set_label s dest len
  exec_code (Code.transfer_shadow dest src len) = exec_transfer dest src len
  exec_code (Code.select_shadow n c s s') = exec_select n c s s'
  exec_code (Code.store_retval s) = exec_retval s

  unfoldable pub exec : List Code → Run Machine (Unit {0})
  exec [] = pure tt
  exec (c ∷ code) = do exec_code c; exec code

  -- A sequence of instrumented instructions, from the instruction `n` on.
  unfoldable pub exec_block : ℕ → List (List Code) → Run Machine (Unit {0})
  exec_block n [] = pure tt
  exec_block n (code ∷ rest) = do exec code; step_application a n; exec_block (n + 1) rest

-- What can be seen of a run: how it ended, the state of the runtime, the label of the result and
-- the traced events.
pub record Observed : Type 0 where
  pub fault : Option Fault
  pub runtime : Runtime
  pub retval_tls : ℕ
  pub events : List Event

unfoldable pub observe : Step Machine (Unit {0}) → Observed
observe (ok u m) = record {
  fault = none;
  runtime = m.runtime;
  retval_tls = m.retval_tls;
  events = m.events;
}
observe (died e m) = record { fault = some e; runtime = m.runtime; retval_tls = 0; events = [] }
