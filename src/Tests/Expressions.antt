-- ===== src/Tests/Expressions.antt =====
-- `serialize` over expressions that are trees, at the negated comparison of a sum of two input
-- bytes with 7.
use kirenenko.Prelude.{
  ℕ, ◌+◌, ◌*◌, refl, arith, Bool, true, false, none, some, [], ◌==◌, if◌then◌else◌,
}
use kirenenko.LabelInfo.{LabelInfo, zero_info}
use kirenenko.Z3.{Z3, Unary, Binary}
use kirenenko.Expressions.{World, serialize}
use kirenenko.Expressions.Coherent.{Coherent, Coherent-cold}
use kirenenko.Expressions.Operands.{Ends, Ans}
use kirenenko.Expressions.Correct.{Graph, serialize-Answers}
use kirenenko.Tests.{llvm_6, start, input_info}

pub data Tree : Type 0 where
  bits : ℕ → ℕ → Tree
  truth : Bool → Tree
  byte : ℕ → Tree
  file_size : ℕ → Tree
  apply : Unary → Tree → Tree
  join : Binary → Tree → Tree → Tree
  choose : Tree → Tree → Tree → Tree

abbrev is_truth : Tree → Bool
is_truth (truth b) = true
is_truth (join Binary.equal x y) = true
is_truth (apply Unary.logical_not x) = true
is_truth t = false

abbrev pub trees : Z3
trees = record {
  Expr = Tree;
  bv_val = λ value size. some (bits value size);
  bool_val = truth;
  input = byte;
  file_size = λ size. some (file_size size);
  is_bool = is_truth;
  bv_size = λ e. some 8;
  unary = λ o x. some (apply o x);
  binary = λ o x y. some (join o x y);
  ite = λ c x y. some (choose c x y);
  simplify = λ x. x;
}

abbrev table : ℕ → LabelInfo
table l =
    if l == 5
    then record zero_info { l1 = 1; l2 = 2; op = 11; size = 8 }
    else if l == 6
    then record zero_info { l1 = 5; op = 32 * 256 + 51; size = 8; op2 = 7 }
    else if l == 7
    then record zero_info { l2 = 6; op = 1; size = 1 }
    else input_info l

abbrev pub world : World trees
world = record {
  runtime = record start { label_info = table; last_label = 7 };
  exprs = λ _. none;
  sets = λ _. none;
  next_pointer = 1;
}

world-Coherent : Coherent trees table (λ _. 0) world
world-Coherent =
    Coherent-cold trees table (λ _. 0) world (omega arith) (λ l. ground arith) refl refl

table-Graph : Graph trees table (λ _. 0) 7
table-Graph = record { older = λ l pos le. ground arith; symbolic = λ l pos le. ground arith }

serialize-Answers_example : Ends (Ans trees table (λ _. 0) 7 []) (serialize trees 8 7 [] world)
serialize-Answers_example =
    serialize-Answers trees table (λ _. 0) 7 table-Graph 8 7 [] world (omega arith) (omega arith)
      world-Coherent
