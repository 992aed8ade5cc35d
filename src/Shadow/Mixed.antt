-- ===== src/Shadow/Mixed.antt =====
-- dfsan.cc: loads of bytes of which the first is concrete and the others are tainted.
use kirenenko.Prelude.{ℕ, suc, ◌-◌, ◌*◌, ◌≤◌, ◌≡◌, arith}
use kirenenko.Word.{u16, u32}
use kirenenko.Operators.{Opcodes, op_load}
use kirenenko.Runtime.{Runtime, label_at}
use kirenenko.Labels.{taint_union}
use kirenenko.Labels.Invariant.{Valid}
use kirenenko.Shadow.{shaped, all_constant, shape_from, shape, load_tainted, taint_union_load}
use kirenenko.Shadow.Input.{Continues, shape_from-Continues}

module _ ⦃ops : Opcodes⦄ (r : Runtime) (v : Valid r) (ls n fuel : ℕ) (two : 2 ≤ n)
    (concrete : label_at r ls 0 ≡ 0) where
  -- If the byte `j` of the memory is the byte `j` of the input, for each but the first, the load is
  -- labelled as the first `n` bytes of the input, although its first byte is concrete.
  pub load-mixed_as_input :
      Continues r ls 0 1 (n - 1)
      → taint_union_load fuel ls n r ≡ taint_union 0 (u32 n) op_load (u16 (n * 8)) 0 0 r
  unfolding taint_union_load load_tainted shape all_constant
  load-mixed_as_input h =
      let e : n ≡ suc (suc (n - 2)) = omega arith in
      let shaped_n = shape_from-Continues r ls 0 1 (n - 1) h in
      let m : n - 1 ≡ suc (n - 2) = omega arith in
      let shaped_m : shape_from r ls 0 1 (suc (n - 2)) ≡ shaped = rw (← m) shaped_n in
      rw e (ground (arith, concrete, v.constant, shaped_m, h 1 (omega arith) (omega arith)))
