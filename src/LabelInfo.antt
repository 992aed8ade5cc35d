-- ===== src/LabelInfo.antt =====
-- dfsan.h and union_util.cc: the label table's entry, the equality that the union table uses,
-- and the class `option` of a label that may be missing.
use kirenenko.Prelude.{ℕ, ◌^◌, ◌-◌, Bool, true, false, ◌&&◌, not, ◌==◌, if◌then◌else◌}

-- `expr` and `deps` are pointers, null at 0.
pub record LabelInfo : Type 0 where
  pub l1 : ℕ
  pub l2 : ℕ
  pub op1 : ℕ
  pub op2 : ℕ
  pub op : ℕ
  pub size : ℕ
  pub flags : ℕ
  pub tree_size : ℕ
  pub hash : ℕ
  pub expr : ℕ
  pub deps : ℕ

abbrev pub const_offset : ℕ
const_offset = 1

abbrev pub const_label : ℕ
const_label = 0

abbrev pub initializing_label : ℕ
initializing_label = 2 ^ 32 - 1

-- sizeof(dfsan_label_info), with its padding
abbrev pub label_info_bytes : ℕ
label_info_bytes = 56

-- A zeroed entry, as fresh memory holds it.
abbrev pub zero_info : LabelInfo
zero_info = record {
  l1 = 0;
  l2 = 0;
  op1 = 0;
  op2 = 0;
  op = 0;
  size = 0;
  flags = 0;
  tree_size = 0;
  hash = 0;
  expr = 0;
  deps = 0;
}

-- The entry of the constant label, whose size `dfsan_init` sets.
abbrev pub constant_info : LabelInfo
constant_info = record zero_info { size = 8 }

-- operator== of two entries: what the flags and the caches hold does not count.
unfoldable pub same : LabelInfo → LabelInfo → Bool
same lhs rhs =
    lhs.l1 == rhs.l1
    && lhs.l2 == rhs.l2
    && lhs.op == rhs.op
    && lhs.size == rhs.size
    && lhs.op1 == rhs.op1
    && lhs.op2 == rhs.op2

pub record LabelOption : Type 0 where
  pub isa : Bool
  pub content : ℕ

unfoldable pub some_dfsan_label : ℕ → LabelOption
some_dfsan_label x = record { isa = true; content = x }

unfoldable pub no_dfsan_label : LabelOption
no_dfsan_label = record { isa = false; content = 0 }

unfoldable pub option_eq : LabelOption → LabelOption → Bool
option_eq lhs rhs = if not lhs.isa then not rhs.isa else rhs.isa && lhs.content == rhs.content

unfoldable pub option_ne : LabelOption → LabelOption → Bool
unfolding option_eq
option_ne lhs rhs = not (option_eq lhs rhs)

unfoldable pub option_deref : LabelOption → ℕ
option_deref o = o.content
