-- ===== src/Pass/Means/Operand.antt =====
-- dfsan.cc: what the label of a union means, whether its operands are labels or values.
use kirenenko.Prelude.{ℕ, ◌^◌, ◌≤◌, ◌<◌, ◌≡◌, ◌≢◌, arith, ◌⊎◌, inl, inr, some}
use kirenenko.Run.{ok}
use kirenenko.Operators.{Opcodes, op_fsize}
use kirenenko.Runtime.{Runtime}
use kirenenko.Labels.{taint_union}
use kirenenko.Labels.Invariant.{Valid}
use kirenenko.Labels.Union.{Extends, IsTracked, taint_union-IsInterned}
use kirenenko.Z3.{Z3, Binary}
use kirenenko.Expressions.Meaning.{Semantics, OperandMeans, operation_of}
use kirenenko.Expressions.Sound.{IsPlainOp, taint_union-Means, OperandMeans-later}
use kirenenko.Labels.Returns.{taint_union-zero}

module _ ⦃ops : Opcodes⦄ {z : Z3} (s : Semantics z) where
  pub OperandMeans-Extends :
      (r r' : Runtime) (l w v : ℕ)
      → Valid r
      → Extends r r'
      → OperandMeans s r l w v
      → OperandMeans s r' l w v
  OperandMeans-Extends r r' l w v valid later (inl plain_value) = inl plain_value
  OperandMeans-Extends r r' l w v valid later (inr h) =
      elim (OperandMeans-later s r r' l w v valid later (inr h)) [
        | inl plain_value ↦ inl plain_value
        | inr (pos, means) ↦ inr (pos, omega (arith, h.1, later.last), means)
      ]

  -- The label of a union, which is zero when both operands are values.
  pub taint_union-OperandMeans :
      (l1 l2 op w v1 v2 : ℕ) (b : Binary) (r : Runtime) {label : ℕ} {r' : Runtime}
      → Valid r
      → IsPlainOp op
      → operation_of op ≡ some b
      → 1 < w
      → w ≤ 64
      → s.compute b w v1 v2 < 2 ^ w
      → taint_union l1 l2 op w v1 v2 r ≡ ok label r'
      → OperandMeans s r l1 w v1
      → OperandMeans s r l2 w v2
      → OperandMeans s r' label w (s.compute b w v1 v2)
  taint_union-OperandMeans l1 l2 op w v1 v2 b r {label} {r'} valid plain_op operation wide small
        bound run h1 h2 =
      let other : op ≢ op_fsize = omega (arith, plain_op, ops.below_last, ops.fits_byte) in
      let t : IsTracked l1 l2 op ⊎ ((l1 ≡ 0) × (l2 ≡ 0)) =
        ground (arith, h1, h2, valid.room, other) in
      elim t [
        | inl tracked ↦
            let i = taint_union-IsInterned l1 l2 op w v1 v2 r valid tracked run in
            inr (
              i.range.0,
              i.range.1,
              taint_union-Means s l1 l2 op w v1 v2 b r valid tracked plain_op operation wide small
                  run h1 h2,
            )
        | inr (e1, e2) ↦ let zero = taint_union-zero op w v1 v2 r other in inl (cc, bound)
      ]
