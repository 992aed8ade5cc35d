-- ===== src/Tests/Pass.antt =====
-- The theorems on the instrumentation pass, at a sum of two input bytes that is stored, compared
-- and branched on, and at calls with a callback and with variable arguments.
use kirenenko.Prelude.{
  ℕ, ◌+◌, zero, suc, ◌<◌, ◌≡◌, refl, arith, Bool, true, false, ◌==◌, if◌then◌else◌, none, some,
  List, [], ◌∷◌, ◌++◌, length, get_elem?,
}
use kirenenko.Pass.{IrType, Value, Object, Inst, Options, TaintFunction, no_shadows, get_shadow}
use kirenenko.Pass.Visit.{visit_inst, instrument}
use kirenenko.Pass.Machine.{Machine, Application, Observed, observe, exec, exec_block, label_of}
use kirenenko.Pass.{set_shadow, all_constants, is_constant_one}
use kirenenko.Pass.Combine.{
  combine_shadows, is_traced, is_traced_type, union_op, union_size, binary_op, load_shadow,
  store_shadow, tracked_alloca, visit_condition,
}
use kirenenko.Pass.Machine.{
  traced_cond, exec_code, step_application, value_of, optional_operand_bits, get_shadow_address,
  store_wide_zero,
}
use kirenenko.Pass.Reference.{propagate_block}
use kirenenko.Pass.Reference.Block.{instrument-propagate_block}
use kirenenko.Pass.Negation.{true_constant, visit_inst-not}
use kirenenko.Pass.Calls.{
  custom_params, ParamType, FunctionType, CustomParam, repeat, get_custom_function_type, CallArg,
  CustomArg, variable_args, custom_args, arg_stores,
}
use kirenenko.Pass.Calls.Types.{custom_arg_types, own_types, custom_args-types, custom_args-mapping}
use kirenenko.Pass.Calls.Passing.{exec_arg_stores, enter, arg_stores-enter, arg_stores-overflow}
use kirenenko.Tests.{llvm_6, start, program}

abbrev options : Options
options = record { trace_fp = false; trace_gep_offset = false; is_native_abi = false }

abbrev application : Application
application = record {
  arguments = λ i. i;
  results = λ k. if k == 0 then 7 else if k == 1 then 9 else if k == 2 then 16 else 0;
  argument_labels = λ i. if i == 0 then 3 else 0;
  memory_after = λ n memory. memory;
}

abbrev machine : Machine
machine = record {
  runtime = start;
  labels = λ k. 0;
  alloca_labels = λ k. 0;
  retval_tls = 0;
  events = [];
}

abbrev byte : IrType
byte = IrType.integer 8

abbrev place : ℕ → Value
place a = Value.constant a IrType.pointer

abbrev result : ℕ → Value
result k = Value.instruction k byte

abbrev block : List (Bool × Inst)
block =
    (false, Inst.load byte (place 0x700000000400) (Object.other_object ∷ []))
    ∷ (false, Inst.load byte (place 0x700000000401) (Object.other_object ∷ []))
    ∷ (false, Inst.binary 11 (result 0) (result 1))
    ∷ (false, Inst.store (result 2) (place 0x700000000500))
    ∷ (false, Inst.store (Value.constant_int 0 8) (place 0x700000000400))
    ∷ (false, Inst.icmp 51 32 (result 2) (Value.constant_int 100 8))
    ∷ (false, Inst.branch (some (Value.instruction 5 (IrType.integer 1))))
    ∷ []

instrument-propagate_block_example :
    observe (exec_block application 0 (instrument options 0 block no_shadows) machine)
    ≡ observe (propagate_block options application (λ k. false) 0 block machine)
instrument-propagate_block_example =
    instrument-propagate_block options application block machine (omega arith)

visit_inst-not_example :
    exec application
      (visit_inst options 0 no_shadows false
        (Inst.binary 28 (Value.argument 0 (IrType.integer 1)) true_constant)).0
      machine
    ≡ exec application
        (visit_inst options 0 no_shadows false
          (Inst.binary 28 true_constant (Value.argument 0 (IrType.integer 1)))).0
        machine
visit_inst-not_example =
    visit_inst-not options 0 no_shadows application (Value.argument 0 (IrType.integer 1)) machine
      refl

-- `int f(char, void ( * )(void), ...)`, called with four arguments.
abbrev variadic : FunctionType
variadic = record {
  params = ParamType.plain_param byte ∷ ParamType.function_pointer_param 0 ∷ [];
  is_var_arg = true;
  returns_value = true;
}

abbrev plain : Value → CallArg
plain v = record { value = v; pointee = none }

abbrev four_args : List CallArg
four_args =
    plain (Value.argument 0 byte)
    ∷ record { value = place 0x401000; pointee = some 0 }
    ∷ plain (Value.constant_int 5 32)
    ∷ plain (Value.argument 1 byte)
    ∷ []

custom_args-types_example :
    (custom_arg_types (custom_args options no_shadows variadic four_args)
      ≡ (get_custom_function_type variadic).0
        ++ own_types (variable_args (length variadic.params) four_args))
    × ((i : ℕ) (a : CallArg)
        → i < length variadic.params
        → get_elem? four_args i ≡ some a
        → get_elem?
            (custom_args options no_shadows variadic four_args)
            (length (custom_params 0 variadic.params).0 + i)
          ≡ some (CustomArg.shadow_arg (get_shadow options no_shadows a.value)))
custom_args-types_example =
    custom_args-types options no_shadows variadic four_args (refl, (refl, tt))

second_place : get_elem? (get_custom_function_type variadic).1 1 ≡ some 1
unfolding get_custom_function_type kirenenko.Pass.Calls.custom_params
second_place = refl

custom_args-mapping_example :
    get_elem? (custom_args options no_shadows variadic four_args) 1
    ≡ some (CustomArg.trampoline_arg 1 0)
custom_args-mapping_example =
    custom_args-mapping options no_shadows variadic four_args 1 1
      (record { value = place 0x401000; pointee = some 0 }) (refl, (refl, tt)) second_place refl

arg_stores-enter_example :
    (tls' : ℕ → ℕ) × (exec_arg_stores application machine
        (arg_stores options no_shadows 0 2 four_args)
        (λ k. 0)
      ≡ some tls')
    × ((k : ℕ) (c : CallArg) (t : IrType)
        → k < 2
        → get_elem? four_args k ≡ some c
        → label_of
            (enter application tls')
            machine
            (get_shadow options no_shadows (Value.argument k t))
          ≡ label_of application machine (get_shadow options no_shadows c.value))
arg_stores-enter_example =
    arg_stores-enter options options no_shadows no_shadows application application machine machine 2
      four_args (λ k. 0) (omega arith) refl

abbrev many_args : ℕ → List CallArg
many_args zero = []
many_args (suc n) = plain (Value.argument 0 byte) ∷ many_args n

arg_stores-overflow_example :
    exec_arg_stores application machine (arg_stores options no_shadows 0 65 (many_args 65)) (λ k. 0)
    ≡ none
arg_stores-overflow_example =
    arg_stores-overflow options no_shadows application machine 65 (many_args 65) (λ k. 0)
      (omega arith) (omega arith)

abbrev run : Observed
run = observe (exec_block application 0 (instrument options 0 block no_shadows) machine)

-- The branch is traced with the label of the comparison.
block_is_traced : run.events ≡ traced_cond 6 0 ∷ []
unfolding program observe exec_block exec exec_code step_application instrument visit_inst
    combine_shadows is_traced is_traced_type union_op union_size binary_op is_constant_one
    load_shadow store_shadow tracked_alloca visit_condition all_constants no_shadows get_shadow
    set_shadow value_of optional_operand_bits label_of get_shadow_address store_wide_zero
block_is_traced = refl
