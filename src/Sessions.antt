-- ===== src/Sessions.antt =====
-- scr/sessions.py: the durable queue of jobs, each a kernel run. The lock and the tables of running
-- jobs are not kept: the flag that `cancel` sets reaches a run through the kernel's `cancel_check`, and
-- `kill_all` of the sandbox is a function of the world.
pub mod Jobs
use selfconnect_runtime.Base.{
  ℕ, String, Bool, ◌||◌, Option, none, some, List, [], ◌∷◌, if◌then◌else◌, string_eq, ◌==◌, Result,
  ok, err,
}
use selfconnect_runtime.State.{
  Store, DbError, JobRow, JobHandle, StopReason, completed, awaiting_approval, cancelled,
  status_of_job, package_unverified, create_session, job_upsert, job_get, job_set_status,
  jobs_by_status, jobs_all, set_session_status,
}
use selfconnect_runtime.Kernel.{
  Kernel, World, RunResult, run, resume, recover, RecoveryStatus, clean, reissue, resumed,
  reissue_safe, quarantined,
}

-- `Job`, and the KeyError of a job that is not there (`job["status"]` of None is a TypeError).
pub data JobError : Type 0 where
  key_error : String → JobError
  type_error : JobError

-- `enqueue`, for the generated ids and the time.
unfoldable pub enqueue :
    Store
    → (session_uuid job_uuid : String) (user_text idem_key : String) (now : ℕ)
    → Result DbError (Store × JobHandle)
unfolding create_session job_upsert
enqueue s session_uuid job_uuid user_text idem_key now = elim (create_session s none session_uuid) [
  | err e ↦ err e
  | ok (t, session) ↦ job_upsert t job_uuid session idem_key "queued" user_text now
]

-- `_status_for`
unfoldable pub status_for : RunResult → String
status_for result = elim result.stopped_reason [
  | completed ↦ "done"
  | awaiting_approval ↦ "awaiting_approval"
  | _ ↦ "needs_review"
]

abbrev pub report : JobRow → StopReason → RunResult
report job reason = record {
  session_id = job.session_id;
  final_text = "";
  iterations = 0;
  stopped_reason = reason;
  pending_approval = none;
}

-- `status in ("done", "cancelled")`
unfoldable pub is_terminal : String → Bool
is_terminal status = status == "done" || status == "cancelled"

abbrev pub set_status : {W : Type 0} → World W → String → String → World W
set_status w job status = record w { store = job_set_status w.store job status }

-- `status` and `list_jobs`
unfoldable pub status : Store → String → Option JobRow
unfolding job_get
status s job = job_get s job

unfoldable pub list_jobs : Store → List JobRow
unfolding jobs_all
list_jobs s = jobs_all s

-- The new status of a job that was running when the process crashed.
unfoldable pub recovered_status : RecoveryStatus → String
recovered_status clean = "done"
recovered_status quarantined = "needs_review"
recovered_status reissue = "needs_review"
recovered_status resumed = "needs_review"
recovered_status reissue_safe = "needs_review"

pub record Recovered : Type 0 where
  pub job_id : String
  pub recovery : RecoveryStatus
  pub new_status : String

-- The loop of `recover_all`.
unfoldable pub recover_jobs : Store → List JobRow → Store × List Recovered
unfolding recovered_status job_set_status
recover_jobs s [] = (s, [])
recover_jobs s (job ∷ jobs) =
    let (t, found) = recover job.session_id s in
    let new = recovered_status found in
    let (u, out) = recover_jobs (job_set_status t job.job_id new) jobs in
    (u, record { job_id = job.job_id; recovery = found; new_status = new } ∷ out)

unfoldable pub recover_all : Store → Store × List Recovered
unfolding recover_jobs jobs_by_status
recover_all s = recover_jobs s (jobs_by_status s "running")

-- `package_guard` gives the error of a package that is not `ok`; `kernel_factory` gives the kernel of a
-- session, with the `cancel_check` of its job.
module _ {W : Type 0} (kernel_factory : String → Kernel W)
    (package_guard : Option (W → Option String)) (kill_all : String → W → W) where
  unfoldable pub package_error : World W → Option String
  package_error w = elim package_guard [ none ↦ none | some guard ↦ guard w.world ]

  -- The part of `run_job` after the package is accepted.
  unfoldable pub start_job : JobRow → World W → RunResult × World W
  unfolding job_set_status status_for run
  start_job job w =
      let (result, w') =
        run (kernel_factory job.session_id) job.session_id job.user_text
          (set_status w job.job_id "running") in
      (
        result,
        set_status w' job.job_id
            (elim result.stopped_reason [ cancelled ↦ "cancelled" | _ ↦ status_for result ]),
      )

  unfoldable pub run_found : JobRow → World W → RunResult × World W
  unfolding is_terminal package_error job_set_status start_job
  run_found job w =
      if is_terminal job.status
      then (report job (status_of_job job.status), w)
      else elim (package_error w) [
        | some detail ↦ (report job (package_unverified detail), set_status w job.job_id "refused")
        | none ↦ start_job job w
      ]

  unfoldable pub run_job : String → World W → Result JobError (RunResult × World W)
  unfolding job_get run_found
  run_job id w = elim (job_get w.store id) [
    | none ↦ err (key_error id)
    | some job ↦ ok (run_found job w)
  ]

  unfoldable pub resume_job : String → World W → Result JobError (RunResult × World W)
  unfolding job_get job_set_status status_for resume
  resume_job id w = elim (job_get w.store id) [
    | none ↦ err type_error
    | some job ↦
        let (result, w') = resume (kernel_factory job.session_id) job.session_id w in
        ok (result, set_status w' id (status_for result))
  ]

  unfoldable pub cancel : String → World W → World W
  unfolding job_set_status job_get set_session_status
  cancel id w =
      let w1 = record (set_status w id "cancelled") { world = kill_all id w.world } in
      elim (job_get w1.store id) [
        | none ↦ w1
        | some job ↦ record w1 { store = set_session_status w1.store job.session_id "cancelled" }
      ]
