-- ===== src/Pass/Visit.antt =====
-- TaintPass.cc: the visitors of instructions other than calls and `phi`. Each gives the code that
-- it inserts and what the pass remembers.
use kirenenko.Prelude.{
  ℕ, zero, suc, ◌+◌, Bool, true, false, ◌||◌, not, Option, none, some, List, [], ◌∷◌, ◌==◌,
  if◌then◌else◌, update,
}
use kirenenko.Operators.{Opcodes}
use kirenenko.Pass.{
  IrType, size_in_bits, store_size, is_floating_point, Value, type_of, is_constant, Object, User,
  Layout, Layouts, Inst, Shadow, zero_shadow, of_instruction, is_zero, is_same_shadow, Code,
  Options, TaintFunction, get_shadow, set_shadow, all_loads_stores,
}
use kirenenko.Pass.Combine.{
  binary_op, binary_operation, cast_operation, combine_shadows, compare_operation, load_shadow,
  store_shadow, visit_condition,
}

-- One call for each case, with the predicate for `==`.
unfoldable pub trace_cases : Shadow → Value → List ℕ → List Code
trace_cases s c [] = []
trace_cases s c (v ∷ cases) =
    let size = size_in_bits (type_of c) in
    Code.call_trace_cmp s zero_shadow size 32 c (Value.constant_int v size) ∷ trace_cases s c cases

unfoldable pub visit_switch_inst : Options → TaintFunction → Value → List ℕ → List Code
visit_switch_inst o tf c cases =
    if is_zero (get_shadow o tf c) then [] else trace_cases (get_shadow o tf c) c cases

-- `getTypeAtIndex`; the index of a field is a constant.
unfoldable pub field_at : Layouts → ℕ → Layout
field_at Layouts.no_fields n = Layout.scalar
field_at (Layouts.field t ts) zero = t
field_at (Layouts.field t ts) (suc n) = field_at ts n

unfoldable pub constant_index : Value → ℕ
constant_index (Value.constant_int c n) = c
constant_index _ = 0

-- The indices into arrays that are not constants, from the type before each index.
unfoldable pub array_indices : Layout → List Value → List Value
array_indices t [] = []
array_indices Layout.scalar (i ∷ is) = []
array_indices (Layout.pointer_to t) (i ∷ is) = array_indices t is
array_indices (Layout.array_of t) (i ∷ is) =
    if is_constant i then array_indices t is else i ∷ array_indices t is
array_indices (Layout.vector_of t) (i ∷ is) = array_indices t is
array_indices (Layout.struct_of ts) (i ∷ is) = array_indices (field_at ts (constant_index i)) is

unfoldable pub trace_indices : Options → TaintFunction → List Value → List Code
trace_indices o tf [] = []
trace_indices o tf (i ∷ is) =
    let rest = trace_indices o tf is in
    if is_zero (get_shadow o tf i) then rest else Code.call_trace_gep (get_shadow o tf i) i ∷ rest

unfoldable pub visit_gep_inst : Options → TaintFunction → Layout → List Value → List Code
visit_gep_inst o tf t indices = trace_indices o tf (array_indices t indices)

unfoldable pub is_vector : IrType → Bool
is_vector (IrType.vector n) = true
is_vector _ = false

unfoldable pub visit_select_inst :
    Options → TaintFunction → ℕ → Value → Value → Value → List Code × Shadow
visit_select_inst o tf n c t f =
    let s = get_shadow o tf t in
    let s' = get_shadow o tf f in
    if is_vector (type_of c)
    then ([], zero_shadow)
    else if is_same_shadow s s'
    then (visit_condition o tf c, s)
    else (Code.select_shadow n c s s' ∷ visit_condition o tf c, of_instruction n)

-- A visitor that ends in `setShadow`, and one that does not.
abbrev pub with_shadow : ℕ → TaintFunction → List Code × Shadow → List Code × TaintFunction
with_shadow n tf r = (r.0, set_shadow n r.1 tf)

abbrev pub without_shadow : TaintFunction → List Code → List Code × TaintFunction
without_shadow tf code = (code, tf)

-- The visitors. An instruction may carry the metadata `nosanitize`.
module _ (o : Options) (n : ℕ) (tf : TaintFunction) (nosanitize : Bool) where
  abbrev pub visit_cast_inst : ℕ → Value → IrType → List Code × TaintFunction
  visit_cast_inst op a t =
      if nosanitize
      then without_shadow tf []
      else with_shadow n tf
          (combine_shadows o n (get_shadow o tf a) zero_shadow op (cast_operation a t))

  -- `visitCmpInst` on integers, and on floating-point numbers.
  abbrev pub visit_icmp_inst : ℕ → ℕ → Value → Value → List Code × TaintFunction
  visit_icmp_inst op p a b =
      if nosanitize
      then without_shadow tf []
      else with_shadow n tf
          (combine_shadows o n (get_shadow o tf a) (get_shadow o tf b) op (compare_operation p a b))

  abbrev pub visit_fcmp_inst : ℕ → ℕ → Value → Value → List Code × TaintFunction
  visit_fcmp_inst op p a b =
      if nosanitize || not o.trace_fp
      then without_shadow tf []
      else with_shadow n tf
          (combine_shadows o n (get_shadow o tf a) (get_shadow o tf b) op (compare_operation p a b))

  abbrev pub visit_load_inst : IrType → Value → List Object → List Code × TaintFunction
  visit_load_inst t addr objects =
      if nosanitize
      then without_shadow tf []
      else if store_size t == 0
      then with_shadow n tf ([], zero_shadow)
      else with_shadow n tf (load_shadow tf n addr (store_size t) objects)

  abbrev pub visit_store_inst : Value → Value → List Code × TaintFunction
  visit_store_inst v addr =
      if nosanitize || store_size (type_of v) == 0
      then without_shadow tf []
      else without_shadow tf (store_shadow tf addr (store_size (type_of v)) (get_shadow o tf v))

  abbrev pub visit_alloca_inst : List User → List Code × TaintFunction
  visit_alloca_inst users =
      with_shadow n
        (record tf {
          alloca_shadow_map =
              if all_loads_stores users
              then update tf.alloca_shadow_map n true
              else tf.alloca_shadow_map;
        })
        ([], zero_shadow)

  abbrev pub visit_branch_inst : Option Value → List Code × TaintFunction
  visit_branch_inst none = without_shadow tf []
  visit_branch_inst (some c) =
      if nosanitize then without_shadow tf [] else without_shadow tf (visit_condition o tf c)

  abbrev pub visit_get_element_ptr_inst : Layout → List Value → List Code × TaintFunction
  visit_get_element_ptr_inst t indices =
      if not o.trace_gep_offset || nosanitize
      then without_shadow tf []
      else without_shadow tf (visit_gep_inst o tf t indices)

  abbrev pub visit_mem_set_inst : Value → Value → Value → List Code × TaintFunction
  visit_mem_set_inst dest v len =
      without_shadow tf (Code.call_set_label (get_shadow o tf v) dest len ∷ [])

  abbrev pub visit_mem_transfer_inst : Value → Value → Value → List Code × TaintFunction
  visit_mem_transfer_inst dest src len = without_shadow tf (Code.transfer_shadow dest src len ∷ [])

  abbrev pub visit_return_inst : Option Value → List Code × TaintFunction
  visit_return_inst none = without_shadow tf []
  visit_return_inst (some v) =
      if o.is_native_abi
      then without_shadow tf []
      else without_shadow tf (Code.store_retval (get_shadow o tf v) ∷ [])

  abbrev pub visit_binary_operator : ⦃ops : Opcodes⦄ → ℕ → Value → Value → List Code × TaintFunction
  visit_binary_operator op a b =
      if nosanitize || is_floating_point (type_of a)
      then without_shadow tf []
      else with_shadow n tf (
          combine_shadows o n (get_shadow o tf a) (get_shadow o tf b) (binary_op op a b)
            (binary_operation a b))

  unfoldable pub visit_inst : ⦃ops : Opcodes⦄ → Inst → List Code × TaintFunction
  visit_inst (Inst.binary op a b) = visit_binary_operator op a b
  visit_inst (Inst.cast op a t) = visit_cast_inst op a t
  visit_inst (Inst.icmp op p a b) = visit_icmp_inst op p a b
  visit_inst (Inst.fcmp op p a b) = visit_fcmp_inst op p a b
  visit_inst (Inst.load t addr objects) = visit_load_inst t addr objects
  visit_inst (Inst.store v addr) = visit_store_inst v addr
  visit_inst (Inst.alloca users) = visit_alloca_inst users
  visit_inst (Inst.select c t f) = with_shadow n tf (visit_select_inst o tf n c t f)
  visit_inst (Inst.branch c) = visit_branch_inst c
  visit_inst (Inst.switch c cases) =
      if nosanitize
      then without_shadow tf []
      else without_shadow tf (visit_switch_inst o tf c cases)
  visit_inst (Inst.get_element_ptr t indices) = visit_get_element_ptr_inst t indices
  visit_inst (Inst.mem_set dest v len) = visit_mem_set_inst dest v len
  visit_inst (Inst.mem_transfer dest src len) = visit_mem_transfer_inst dest src len
  visit_inst (Inst.ret v) = visit_return_inst v
  visit_inst Inst.untracked = without_shadow tf []

-- The visitors of a sequence of instructions, from the instruction `n` on.
unfoldable pub instrument :
    ⦃ops : Opcodes⦄ → Options → ℕ → List (Bool × Inst) → TaintFunction → List (List Code)
instrument o n [] tf = []
instrument o n ((nosanitize, i) ∷ is) tf =
    let (code, tf') = visit_inst o n tf nosanitize i in code ∷ instrument o (n + 1) is tf'
