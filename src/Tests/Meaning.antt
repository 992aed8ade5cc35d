-- ===== src/Tests/Meaning.antt =====
-- Expressions that are values, for an input whose byte at offset `i` is `i + 7`, and the sum of
-- its first two bytes. The unsigned operations stand in for the signed ones.
use kirenenko.Prelude.{
  zero, suc, Bool, false, List, [], ◌∷◌, inl, ℕ, ◌+◌, ◌-◌, ◌*◌, ◌/◌, ◌%◌, ◌^◌, bit_and, bit_or,
  bit_xor, ◌≡◌, refl, arith, true, inr, none, some, ◌==◌, ltb, if◌then◌else◌,
}
use kirenenko.Run.{Step, ok}
use kirenenko.Operators.{is_commutative}
use kirenenko.Runtime.{Runtime}
use kirenenko.Labels.{taint_union}
use kirenenko.Z3.{Z3, Binary}
use kirenenko.Expressions.Plain.{expr_of, node_expr}
use kirenenko.Expressions.Meaning.{Semantics, Means, OperandMeans, operation_of}
use kirenenko.Expressions.Sound.{taint_union-Means}
use kirenenko.Pass.{
  IrType, Value, Inst, Options, no_shadows, get_shadow, set_shadow, is_constant_one,
}
use kirenenko.Pass.Combine.{
  combine_shadows, is_traced, is_traced_type, union_op, union_size, binary_op,
}
use kirenenko.Pass.Visit.{visit_inst, instrument}
use kirenenko.Pass.Machine.{
  Machine, Application, Observed, observe, exec, exec_block, exec_code, label_of, step_application,
  value_of, optional_operand_bits,
}
use kirenenko.Pass.Means.{IsArithmeticBlock, IsRegistersOnly, returned}
use kirenenko.Pass.Means.Block.{instrument-Means, instrument-returns}
use kirenenko.Labels.Returns.{HasSpaceFor}
use kirenenko.Tests.{llvm_6, start, start-Valid, program, state_of}

-- A number of bits and a value.
abbrev Vector : Type 0
Vector = ℕ × ℕ

abbrev in_order : (ℕ → ℕ → ℕ) → ℕ → ℕ → ℕ
in_order f x y = if ltb x y then f x y else f y x

abbrev divide : ℕ → ℕ → ℕ → ℕ
divide w x y = if y == 0 then 2 ^ w - 1 else x / y

abbrev remain : ℕ → ℕ → ℕ
remain x y = if y == 0 then x else x % y

abbrev calculate : Binary → ℕ → ℕ → ℕ → ℕ
calculate Binary.bit_and w x y = in_order bit_and x y
calculate Binary.bit_or w x y = in_order bit_or x y
calculate Binary.bit_xor w x y = in_order bit_xor x y
calculate Binary.shift_left w x y = x * 2 ^ y % 2 ^ w
calculate Binary.logical_shift_right w x y = x / 2 ^ y
calculate Binary.arithmetic_shift_right w x y = x / 2 ^ y
calculate Binary.add w x y = (x + y) % 2 ^ w
calculate Binary.sub w x y = (x + 2 ^ w - y) % 2 ^ w
calculate Binary.mul w x y = x * y % 2 ^ w
calculate Binary.unsigned_div w x y = divide w x y
calculate Binary.signed_div w x y = divide w x y
calculate Binary.unsigned_rem w x y = remain x y
calculate Binary.signed_rem w x y = remain x y
calculate b w x y = 0

abbrev vectors : Z3
vectors = record {
  Expr = Vector;
  bv_val = λ value width. some (width, value);
  bool_val = λ b. (1, if b then 1 else 0);
  input = λ offset. (8, offset + 7);
  file_size = λ width. some (width, 4);
  is_bool = λ e. e.0 == 1;
  bv_size = λ e. some e.0;
  unary = λ o e. none;
  binary = λ b x y. if x.0 == y.0 then some (x.0, calculate b x.0 x.1 y.1) else none;
  ite = λ c x y. none;
  simplify = λ e. e;
}

in_order_comm : (f : ℕ → ℕ → ℕ) (x y : ℕ) → in_order f x y ≡ in_order f y x
in_order_comm f x y = ground arith

calculate_comm :
    (op : ℕ) (b : Binary) (w x y : ℕ)
    → is_commutative op ≡ true
    → operation_of op ≡ some b
    → calculate b w x y ≡ calculate b w y x
unfolding is_commutative operation_of
calculate_comm op Binary.bit_and w x y h h' = in_order_comm bit_and x y
calculate_comm op Binary.bit_or w x y h h' = in_order_comm bit_or x y
calculate_comm op Binary.bit_xor w x y h h' = in_order_comm bit_xor x y
calculate_comm op Binary.shift_left w x y h h' = absurd (ground (arith, h, h'))
calculate_comm op Binary.logical_shift_right w x y h h' = absurd (ground (arith, h, h'))
calculate_comm op Binary.arithmetic_shift_right w x y h h' = absurd (ground (arith, h, h'))
calculate_comm op Binary.add w x y h h' = let q : x + y ≡ y + x = omega arith in rw (q) refl
calculate_comm op Binary.sub w x y h h' = absurd (ground (arith, h, h'))
calculate_comm op Binary.mul w x y h h' = let q : x * y ≡ y * x = omega arith in rw (q) refl
calculate_comm op Binary.unsigned_div w x y h h' = absurd (ground (arith, h, h'))
calculate_comm op Binary.signed_div w x y h h' = absurd (ground (arith, h, h'))
calculate_comm op Binary.unsigned_rem w x y h h' = absurd (ground (arith, h, h'))
calculate_comm op Binary.signed_rem w x y h h' = absurd (ground (arith, h, h'))
calculate_comm op b w x y h h' = refl

calculated :
    (b : Binary) (x y : Vector) (width : ℕ)
    → vectors.bv_size x ≡ some width
    → vectors.bv_size y ≡ some width
    → vectors.binary b x y ≡ some (width, calculate b width x.1 y.1)
calculated b x y width e e' = ground (arith, e, e')

abbrev values : Semantics vectors
values = record {
  eval = λ e. e.1;
  compute = calculate;
  bv_val-eval = λ value width pos small. ((width, value), refl, refl, refl);
  simplify-eval = λ e. (refl, refl);
  binary-eval = λ b x y width arithmetic e e'.
      ((width, calculate b width x.1 y.1), calculated b x y width e e', refl, refl);
  compute_comm = calculate_comm;
}

first-Means : OperandMeans values start 1 8 7
unfolding expr_of node_expr
first-Means = inr (omega arith, omega arith, ((8, 7), refl, refl, refl))

second-Means : OperandMeans values start 2 8 8
unfolding expr_of node_expr
second-Means = inr (omega arith, omega arith, ((8, 8), refl, refl, refl))

abbrev byte_sum : Step Runtime ℕ
byte_sum = taint_union 1 2 11 8 7 8 start

byte_sum_label : byte_sum ≡ ok 5 (state_of byte_sum)
unfolding program
byte_sum_label = refl

taint_union-Means_example : Means values (state_of byte_sum) 5 8 15
taint_union-Means_example =
    taint_union-Means values 1 2 11 8 7 8 Binary.add start start-Valid (omega arith) (omega arith)
      (unfold operation_of in refl) (omega arith) (omega arith) byte_sum_label first-Means
      second-Means

-- `(a + b) + 3` of the first two bytes.
abbrev sum_application : Application
sum_application = record {
  arguments = λ i. if i == 0 then 7 else if i == 1 then 8 else 0;
  results = λ k. if k == 0 then 15 else if k == 1 then 18 else 0;
  argument_labels = λ i. if i == 0 then 1 else if i == 1 then 2 else 0;
  memory_after = λ n memory. memory;
}

abbrev sum_machine : Machine
sum_machine = record {
  runtime = start;
  labels = λ k. 0;
  alloca_labels = λ k. 0;
  retval_tls = 0;
  events = [];
}

abbrev byte : IrType
byte = IrType.integer 8

abbrev sum_block : List (Bool × Inst)
sum_block =
    (false, Inst.binary 11 (Value.argument 0 byte) (Value.argument 1 byte))
    ∷ (false, Inst.binary 11 (Value.instruction 0 byte) (Value.constant_int 3 8))
    ∷ []

abbrev sum_options : Options
sum_options = record { trace_fp = false; trace_gep_offset = false; is_native_abi = false }

abbrev sum_returned : Observed
sum_returned = returned sum_options sum_application sum_block (Value.instruction 1 byte) sum_machine

sum_block-IsArithmeticBlock : IsArithmeticBlock values sum_application 8 0 sum_block
unfolding operation_of value_of
sum_block-IsArithmeticBlock = (
  (refl, refl, refl, omega arith),
  (Binary.add, refl, refl),
  ((refl, refl, (refl, omega arith), omega arith), (Binary.add, refl, refl), tt),
)

sum_arguments :
    (i : ℕ)
    → OperandMeans values start (sum_application.argument_labels i) 8 (sum_application.arguments i)
sum_arguments zero = first-Means
sum_arguments (suc zero) = second-Means
sum_arguments (suc (suc n)) = inl (ground arith)

sum_no_fault : sum_returned.fault ≡ none
unfolding program observe exec_block exec exec_code step_application instrument visit_inst
    combine_shadows is_traced is_traced_type union_op union_size binary_op is_constant_one
    no_shadows get_shadow set_shadow value_of optional_operand_bits label_of
sum_no_fault = refl

sum_label : sum_returned.retval_tls ≡ 6
unfolding program observe exec_block exec exec_code step_application instrument visit_inst
    combine_shadows is_traced is_traced_type union_op union_size binary_op is_constant_one
    no_shadows get_shadow set_shadow value_of optional_operand_bits label_of
sum_label = refl

sum_application-IsRegistersOnly : IsRegistersOnly sum_application 8
sum_application-IsRegistersOnly = record {
  arguments = λ i. ground arith;
  results = λ k. ground arith;
  memory = λ k memory. refl;
}

instrument-Means_example :
    OperandMeans values sum_returned.runtime sum_returned.retval_tls 8
      (value_of sum_application (Value.instruction 1 byte))
instrument-Means_example =
    instrument-Means values sum_options sum_application 8 sum_application-IsRegistersOnly refl
      (omega arith) (omega arith) sum_block (Value.instruction 1 byte) sum_machine
      sum_block-IsArithmeticBlock refl start-Valid sum_arguments sum_no_fault

start-HasSpaceFor : HasSpaceFor 2 start
start-HasSpaceFor = record { label = omega arith; node = omega arith }

instrument-returns_example : sum_returned.fault ≡ none
instrument-returns_example =
    instrument-returns values sum_options sum_application 8 sum_application-IsRegistersOnly refl
      (omega arith) (omega arith) sum_block (Value.instruction 1 byte) sum_machine
      sum_block-IsArithmeticBlock start-Valid sum_arguments start-HasSpaceFor
