-- ===== src/Driver/Checked/Tests.antt =====
-- The theorem on `eval_mm_valid` at a small trace.
use cs0330_fall2022_7_malloc.Base.{◌≡◌, refl, []}
use cs0330_fall2022_7_malloc.Machine.{State}
use cs0330_fall2022_7_malloc.Driver.Checked.Run.{Finishes, eval_mm_valid_lem}
use cs0330_fall2022_7_malloc.Driver.Checked.Sample.{
  used_before, used_before-Ready, a_trace, a_trace-WellUsed, fresh_track,
}
use cs0330_fall2022_7_malloc.Driver.Valid.{eval_mm_valid, valid_ops}

eval_mm_valid_lem_example :
    (s₀ : State) × (eval_mm_valid a_trace fresh_track used_before
      ≡ valid_ops a_trace.ops (record fresh_track { ranges = [] }) s₀)
    × Finishes 2 a_trace.ops (record fresh_track { ranges = [] }) s₀
eval_mm_valid_lem_example =
    eval_mm_valid_lem used_before a_trace fresh_track 2 used_before-Ready a_trace-WellUsed refl refl
