-- ===== src/Team/Service.antt =====
-- scr/team.py: the calls of the `delegate` tool one after another, and the agent's finalization.
use selfconnect_runtime.Base.{
  ◌+◌, String, ◌≡◌, refl, sym, subst, inl, inr, false, not, ◌&&◌, arith, ltb, Bool-cases, string_eq,
  contains, lookup, Result, Result-cases,
}
use selfconnect_runtime.Capability.{Os, CapabilityManifest}
use selfconnect_runtime.Orchestration.{
  Team, TeamError, key_error, denied, severed, too_deep, not_reachable, unknown_parent,
  effective_manifest,
}
use selfconnect_runtime.Team.{
  ToolError, refused_again, refused_more, Refusal, not_a_delegate, depth_limit, TeamEvent,
  delegate_denied, policy, Desk, Desks, Reply, count_of, has_pair, record_event, run_delegate,
  is_exhausted, refuse_severed, try_delegate, check_policy, delegates_of, delegate_fn,
}
use selfconnect_runtime.Team.Returns.{run_delegate-IsHonest}
use selfconnect_runtime.Team.Promises.{
  delegations, is_counted, IsHonest, IsIdle, record_event-IsHonest, verdicts,
}

module _ {W : Type 0} (k : Desks W) where
  -- What one call did to the desk: nothing, an entry in the ledger, or a run of the child, which the
  -- policy allowed
  pub data Outcome (child subtask : String) (desk next : Desk W) : Type 0 where
    untouched : next ≡ desk → Outcome child subtask desk next
    noted :
        (e : TeamEvent) → IsIdle k e → next ≡ record_event e desk → Outcome child subtask desk next
    ran :
        (eff : CapabilityManifest)
        → (k.policy.no_redelegate_after_denial && has_pair desk.failed child (k.sha256 subtask))
          ≡ false
        → is_exhausted k.policy.max_delegations_per_child (count_of desk.count child) ≡ false
        → next ≡ (run_delegate k child subtask eff desk).1
        → Outcome child subtask desk next

  refusal-IsIdle :
      (child : String) (reason : Refusal) → IsIdle k (delegate_denied k.parent child reason)
  unfolding IsIdle delegations verdicts is_counted
  refusal-IsIdle child reason c = (refl, refl, refl)

  again-IsIdle : (child : String) → IsIdle k (policy k.parent child refused_again)
  unfolding IsIdle delegations verdicts is_counted
  again-IsIdle child c = (refl, ground arith, refl)

  more-IsIdle : (child : String) → IsIdle k (policy k.parent child refused_more)
  unfolding IsIdle delegations verdicts is_counted
  more-IsIdle child c = (refl, ground arith, refl)

  refuse_severed-outcome :
      (child subtask : String) (desk : Desk W) (e : TeamError) (answer : Result ToolError Reply)
      (next : Desk W)
      → refuse_severed k child desk e ≡ (answer, next)
      → Outcome child subtask desk next
  unfolding refuse_severed
  refuse_severed-outcome child subtask desk (key_error name) answer next r =
      untouched (ground (arith, r))
  refuse_severed-outcome child subtask desk (denied d) answer next r = untouched (ground (arith, r))
  refuse_severed-outcome child subtask desk (severed name) answer next r =
      noted _ (refusal-IsIdle child (Refusal.severed (severed name))) (ground (arith, r))
  refuse_severed-outcome child subtask desk (unknown_parent name) answer next r =
      noted _ (refusal-IsIdle child (Refusal.severed (unknown_parent name))) (ground (arith, r))
  refuse_severed-outcome child subtask desk (not_reachable name) answer next r =
      noted _ (refusal-IsIdle child (Refusal.severed (not_reachable name))) (ground (arith, r))
  refuse_severed-outcome child subtask desk too_deep answer next r =
      noted _ (refusal-IsIdle child (Refusal.severed too_deep)) (ground (arith, r))

  module _ (os : Os) where
    check_policy-outcome :
        (team : Team) (child subtask : String) (desk : Desk W) (answer : Result ToolError Reply)
        (next : Desk W)
        → check_policy k os team child subtask desk ≡ (answer, next)
        → Outcome child subtask desk next
    unfolding check_policy try_delegate
    check_policy-outcome team child subtask desk answer next r =
        elim (Bool-cases
          (k.policy.no_redelegate_after_denial && has_pair desk.failed child (k.sha256 subtask))) [
            | inl again ↦ noted _ (again-IsIdle child) (ground (arith, again, r))
            | inr fresh ↦
                elim (Bool-cases
                  (is_exhausted k.policy.max_delegations_per_child (count_of desk.count child))) [
                    | inl more ↦ noted _ (more-IsIdle child) (ground (arith, fresh, more, r))
                    | inr room ↦ elim (Result-cases (effective_manifest os team child)) [
                      | inl (eff, good) ↦ ran eff fresh room (ground (arith, fresh, room, good, r))
                      | inr (e, bad) ↦
                          refuse_severed-outcome child subtask desk e answer next
                            (ground (arith, fresh, room, bad, r))
                    ]
                  ]
          ]

    pub delegate_fn-outcome :
        (team : Team) (child subtask : String) (desk : Desk W) (answer : Result ToolError Reply)
        (next : Desk W)
        → delegate_fn k os team child subtask desk ≡ (answer, next)
        → Outcome child subtask desk next
    unfolding delegate_fn
    delegate_fn-outcome team child subtask desk answer next r =
        elim (Bool-cases (k.cancelled desk.world)) [
          | inl stopped ↦ untouched (ground (arith, stopped, r))
          | inr going ↦
              elim (Bool-cases (not (contains (delegates_of (lookup k.parent team.edges)) child))) [
                | inl stranger ↦
                    noted _ (refusal-IsIdle child not_a_delegate)
                      (ground (arith, going, stranger, r))
                | inr known ↦ elim (Bool-cases (ltb k.max_depth (k.depth + 1))) [
                  | inl deep ↦
                      noted _ (refusal-IsIdle child depth_limit)
                        (ground (arith, going, known, deep, r))
                  | inr shallow ↦
                      check_policy-outcome team child subtask desk answer next
                        (ground (arith, going, known, shallow, r))
                ]
              ]
        ]

  pub Outcome-IsHonest :
      (child subtask : String) (desk next : Desk W)
      → Outcome child subtask desk next
      → IsHonest k desk
      → IsHonest k next
  Outcome-IsHonest child subtask desk next (untouched e) h = subst (IsHonest k) (sym e) h
  Outcome-IsHonest child subtask desk next (noted event idle e) h =
      subst (IsHonest k) (sym e) (record_event-IsHonest k event desk idle h)
  Outcome-IsHonest child subtask desk next (ran eff fresh room e) h =
      subst (IsHonest k) (sym e) (run_delegate-IsHonest k child subtask eff desk room h)
