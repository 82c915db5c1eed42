-- ===== src/Team/Returns.antt =====
-- scr/team.py: the end of a child's run, and the run as a whole.
use selfconnect_runtime.Base.{
  ◌+◌, ◌≤◌, String, ◌≡◌, refl, ◌⊎◌, inl, inr, true, false, ◌&&◌, Option, none, some, List, ◌∷◌,
  arith, Bool-cases, string_eq, ◌==◌, contains, insert,
}
use selfconnect_runtime.Kernel.{World}
use selfconnect_runtime.Capability.{CapabilityManifest}
use selfconnect_runtime.Team.{
  as_task, as_result, marked_denied, not_counted, counted, delegate, Desk, Desks, ChildRun,
  child_all_denied, count_of, record_event, deliver, child_text, settle, conclude_child,
  run_delegate, is_exhausted,
}
use selfconnect_runtime.Team.Promises.{
  delegations, verdicts, IsHonest, world-IsHonest, deliver-IsHonest, decided-IsHonest,
  called-IsHonest, called-runs, mailbox-runs,
}

module _ {W : Type 0} (k : Desks W) where
  failed-IsHonest :
      (desk : Desk W) (failed : List (String × String))
      → IsHonest k desk
      → IsHonest k (record desk { failed = failed })
  failed-IsHonest desk failed h = record {
    counts = h.counts;
    limits = h.limits;
    begun = h.begun;
    ran = h.ran;
    recorded = h.recorded;
  }

  finished-from :
      (finished : List String) (child c : String)
      → contains (child ∷ finished) c ≡ true
      → (contains finished c ≡ true) ⊎ ((child ≡ c) × (counted ≡ counted))
  finished-from finished child c h = elim (string_eq.dec child c) [
    | yes same ↦ inr (same, refl)
    | no differ ↦ inl (ground (arith, h, differ))
  ]

  settle-IsHonest :
      (child subtask : String) (run : ChildRun) (desk : Desk W)
      → is_exhausted k.policy.max_delegations_per_child (count_of desk.count child) ≡ false
      → verdicts desk.log child + 1 ≤ delegations desk.log child
      → IsHonest k desk
      → IsHonest k (
          settle k child subtask run
            (record desk { count = insert child (count_of desk.count child + 1) desk.count }))
  unfolding settle
  settle-IsHonest child subtask run desk room open_run h =
      elim (Bool-cases (child_all_denied run.events)) [
        | inl all_denied ↦ rw all_denied (
            failed-IsHonest _ ((child, k.sha256 subtask) ∷ desk.failed) (
              decided-IsHonest k desk child marked_denied desk.finished refl (λ c done. inl done)
                room open_run h))
        | inr some_ran ↦
            elim (Bool-cases
              (k.policy.require_nonempty_result && k.strip (child_text k child run) == "")) [
                | inl empty ↦ rw some_ran (
                    rw empty (
                      decided-IsHonest k desk child not_counted desk.finished refl
                        (λ c done. inl done) room open_run h))
                | inr full ↦ rw some_ran (
                    rw full (
                      decided-IsHonest k desk child counted (child ∷ desk.finished) refl
                        (finished-from desk.finished child) room open_run h))
              ]
      ]

  conclude_child-IsHonest :
      (child subtask : String) (opened : Desk W) (end : Option ChildRun × World W)
      → is_exhausted k.policy.max_delegations_per_child (count_of opened.count child) ≡ false
      → verdicts opened.log child + 1 ≤ delegations opened.log child
      → IsHonest k opened
      → IsHonest k (conclude_child k child subtask opened end).1
  unfolding conclude_child
  conclude_child-IsHonest child subtask opened (none, world) room open_run h =
      world-IsHonest k opened world h
  conclude_child-IsHonest child subtask opened (some run, world) room open_run h =
      deliver-IsHonest k child k.parent (child_text k child run) as_result _ (
        settle-IsHonest child subtask run (record opened { world = world }) room open_run
          (world-IsHonest k opened world h))

  pub run_delegate-IsHonest :
      (child subtask : String) (eff : CapabilityManifest) (desk : Desk W)
      → is_exhausted k.policy.max_delegations_per_child (count_of desk.count child) ≡ false
      → IsHonest k desk
      → IsHonest k (run_delegate k child subtask eff desk).1
  unfolding run_delegate deliver
  run_delegate-IsHonest child subtask eff desk room h =
      let hash = k.eff_hash eff in
      let called = record_event (delegate k.parent child k.team_id hash (k.depth + 1)) desk in
      let opened = deliver k k.parent child subtask as_task called in
      conclude_child-IsHonest child subtask opened (k.run_child child subtask opened.world) room
        (mailbox-runs k called.log k.parent child (k.sha256 subtask) child as_task
          (called-runs k desk child k.team_id hash (k.depth + 1) h))
        (deliver-IsHonest k k.parent child subtask as_task called
          (called-IsHonest k desk child k.team_id hash (k.depth + 1) h))
