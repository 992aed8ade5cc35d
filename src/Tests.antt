-- ===== src/Tests.antt =====
-- A runtime whose input is a file of four bytes, and the numbers of the LLVM instructions; the
-- tests and the examples of the theorems stand in the modules below.
mod Memory
mod Labels
mod Shadow
mod Expressions
mod Meaning
mod Custom
mod Branches
mod Pass
use kirenenko.Prelude.{ℕ, ◌+◌, ◌-◌, ◌≡◌, ◌≤◌, ◌<◌, refl, inl, arith, [], ◌==◌, if◌then◌else◌}
use kirenenko.Run.{Step, ok, died}
use kirenenko.Operators.{Opcodes, is_commutative}
use kirenenko.Allocator.{Allocator, allocator_alloc}
use kirenenko.LabelInfo.{
  LabelInfo, zero_info, constant_info, same, option_eq, option_ne, some_dfsan_label, no_dfsan_label,
}
use kirenenko.UnionTable.{UnionTable, hash, link, insert, find, lookup}
use kirenenko.Runtime.{Runtime, dfsan_check_label}
use kirenenko.Labels.{
  taint_union, union_ordered, union_info, intern, new_union, table_insert, tree_hash, xxhash,
  dfsan_create_label,
}
use kirenenko.Labels.Invariant.{Valid}
use kirenenko.Shadow.{
  all_constant, shape_from, shape, extracted, is_whole, slow_path, load_tainted, taint_union_load,
  fill, fill_consecutive, fill_extracts, taint_union_store,
}

instance abbrev llvm_6 : Opcodes
llvm_6 = record {
  op_add = 11;
  op_sub = 13;
  op_mul = 15;
  op_udiv = 17;
  op_sdiv = 18;
  op_urem = 20;
  op_srem = 21;
  op_shl = 23;
  op_lshr = 24;
  op_ashr = 25;
  op_and = 26;
  op_or = 27;
  op_xor = 28;
  op_trunc = 36;
  op_zext = 37;
  op_sext = 38;
  op_icmp = 51;
  last_llvm_op = 64;
  above_terminators = omega arith;
  below_last = omega arith;
  fits_byte = omega arith;
}

abbrev input_info : ℕ → LabelInfo
input_info l = if l == 0 then constant_info else record zero_info { size = 8; op1 = l - 1 }

-- After `dfsan_init` for a file of four bytes, and the constructor of the table.
abbrev start : Runtime
start = record {
  last_label = 4;
  label_info = input_info;
  allocator = record {
    begin_addr = 0x400c00000000;
    next_usable_byte = 0x400c00200000;
    end_addr = 0x400d00000000;
  };
  union_table = record { bucket = λ _. []; bucket_size = 0x40000 };
  shadow = λ a. if a == 0x1000 then 1 else if a == 0x1004 then 2 else if a == 0x1008 then 3 else 0;
  memory = λ _. 0;
}

start-Valid : Valid start
start-Valid = record {
  room = omega arith;
  nodes = λ i. tt;
  known = λ l pos le. inl (ground arith);
  older = λ l pos le. ground arith;
  constant = omega arith;
  blocks = record {
    initialized = omega arith;
    above = omega arith;
    below = omega arith;
    addressable = omega arith;
  };
}

-- All that a run of the tests computes through.
program : Unit {0}
unfolding is_commutative allocator_alloc same option_eq option_ne some_dfsan_label no_dfsan_label
    hash link insert find lookup dfsan_check_label taint_union union_ordered union_info intern
    new_union table_insert tree_hash xxhash dfsan_create_label all_constant shape_from shape
    extracted is_whole slow_path load_tainted taint_union_load fill fill_consecutive fill_extracts
    taint_union_store
program = tt

-- The state and the value of a run that ended normally.
abbrev state_of : {A : Type 0} → Step Runtime A → Runtime
state_of (ok a r) = r
state_of (died e r) = r

abbrev sum : Step Runtime ℕ
sum = taint_union 1 2 11 16 7 9 start

sum_label : sum ≡ ok 5 (state_of sum)
unfolding program
sum_label = refl
