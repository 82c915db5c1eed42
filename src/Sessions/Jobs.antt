-- ===== src/Sessions/Jobs.antt =====
-- scr/sessions.py: which jobs run.
use selfconnect_runtime.Base.{
  String, ◌≡◌, refl, ap, ◌∙◌, ◌⊎◌, inl, inr, true, false, Option, some, arith, Bool-cases,
  string_eq, ok,
}
use selfconnect_runtime.State.{status_of_job, package_unverified, JobRow, job_get}
use selfconnect_runtime.Kernel.{Kernel, World, RunResult}
use selfconnect_runtime.Sessions.{
  is_terminal, package_error, run_job, run_found, set_status, report,
}

module _ {W : Type 0} (kernel_factory : String → Kernel W)
    (package_guard : Option (W → Option String)) (kill_all : String → W → W) where
  run_job-found :
      (id : String) (w : World W) (job : JobRow)
      → job_get w.store id ≡ some job
      → run_job kernel_factory package_guard kill_all id w
        ≡ ok (run_found kernel_factory package_guard kill_all job w)
  unfolding run_job
  run_job-found id w job found = ground (arith, found)

  run_found-over :
      (job : JobRow) (w : World W)
      → is_terminal job.status ≡ true
      → run_found kernel_factory package_guard kill_all job w
        ≡ (report job (status_of_job job.status), w)
  unfolding run_found
  run_found-over job w over = ground (arith, over)

  run_found-refused :
      (job : JobRow) (w : World W) (detail : String)
      → is_terminal job.status ≡ false
      → package_error kernel_factory package_guard kill_all w ≡ some detail
      → run_found kernel_factory package_guard kill_all job w
        ≡ (report job (package_unverified detail), set_status w job.job_id "refused")
  unfolding run_found
  run_found-refused job w detail live refused = ground (arith, live, refused)

  -- A job whose status is done or cancelled, or whose package is refused, is never run: the world is
  -- as before, and the result has no iteration.
  pub run_job-barred :
      (id : String) (w : World W) (job : JobRow)
      → job_get w.store id ≡ some job
      → (is_terminal job.status ≡ true)
        ⊎ ((detail : String) × (package_error kernel_factory package_guard kill_all w
              ≡ some detail))
      → (result : RunResult) × (w' : World W) × (run_job kernel_factory package_guard kill_all id w
          ≡ ok (result, w'))
        × (w'.world ≡ w.world)
        × (result.iterations ≡ 0)
  run_job-barred id w job found bar = elim (Bool-cases (is_terminal job.status)) [
    | inl over ↦ (
      report job (status_of_job job.status),
      w,
      run_job-found id w job found ∙ ap ok (run_found-over job w over),
      refl,
      refl,
    )
    | inr live ↦ elim bar [
      | inl over ↦ ground (arith, live, over)
      | inr (detail, refused) ↦ (
        report job (package_unverified detail),
        set_status w job.job_id "refused",
        run_job-found id w job found ∙ ap ok (run_found-refused job w detail live refused),
        refl,
        refl,
      )
    ]
  ]
