-- ===== src/Driver/Counted/Tests.antt =====
-- The theorem on `eval_mm_util` at a small trace.
use cs0330_fall2022_7_malloc.Base.{◌<◌, ◌^◌, ◌≡◌, refl, sym, subst, arith}
use cs0330_fall2022_7_malloc.Driver.Checked.Sample.{
  used_before, used_before-Ready, a_trace, a_trace-WellUsed, fresh_track,
}
use cs0330_fall2022_7_malloc.Driver.Counted.{total, peak, none_in_use}
use cs0330_fall2022_7_malloc.Driver.Counted.Run.{eval_mm_util_lem}
use cs0330_fall2022_7_malloc.Driver.Counted.Steps.{Measures}
use cs0330_fall2022_7_malloc.Driver.Utilization.{eval_mm_util}
use cs0330_fall2022_7_malloc.Driver.Valid.{eval_mm_valid}

-- 100 bytes and the 60 bytes of the block that grew
a_trace-peak : peak 2 none_in_use a_trace.ops ≡ 160
unfolding peak total
a_trace-peak = refl

eval_mm_util_lem_example :
    Measures
      (eval_mm_util a_trace fresh_track used_before)
      (eval_mm_valid a_trace fresh_track used_before)
      (peak 2 none_in_use a_trace.ops)
eval_mm_util_lem_example =
    eval_mm_util_lem used_before a_trace fresh_track 2 used_before-Ready a_trace-WellUsed refl refl
      (subst (λ p. p < 2 ^ 31) (sym a_trace-peak) (omega arith))
