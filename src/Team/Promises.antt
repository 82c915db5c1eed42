-- ===== src/Team/Promises.antt =====
-- scr/team.py: what the policy of the `delegate` tool guarantees over any sequence of its calls.
use selfconnect_runtime.Base.{
  ℕ, ◌+◌, ◌≤◌, String, ◌≡◌, refl, ◌⊎◌, inl, inr, Bool, true, false, ◌&&◌, ◌||◌, some, List, [], ◌∷◌,
  ◌++◌, arith, if◌then◌else◌, string_eq, ◌==◌, contains, ==_refl, Dict, insert, lookup-insert,
}
use selfconnect_runtime.Kernel.{World}
use selfconnect_runtime.Team.{
  Decision, Direction, refused_again, refused_more, marked_denied, not_counted, counted, TeamEvent,
  delegate_denied, policy, delegate, mailbox, Desk, Desks, count_of, record_event, deliver,
  is_exhausted,
}

-- How many runs of the child the ledger holds
unfoldable pub delegations : List TeamEvent → String → ℕ
delegations [] c = 0
delegations (delegate p child t h d ∷ es) c =
    let rest = delegations es c in if child == c then 1 + rest else rest
delegations (delegate_denied p child r ∷ es) c = delegations es c
delegations (policy p child d ∷ es) c = delegations es c
delegations (mailbox s r d h ∷ es) c = delegations es c

-- A decision on a run of a child that returned
abbrev pub is_verdict : Decision → Bool
is_verdict d = elim d [ refused_again ↦ false | refused_more ↦ false | _ ↦ true ]

-- How many decisions on a run of the child the ledger holds
unfoldable pub verdicts : List TeamEvent → String → ℕ
verdicts [] c = 0
verdicts (policy p child d ∷ es) c =
    let rest = verdicts es c in if child == c && is_verdict d then 1 + rest else rest
verdicts (delegate p child t h d ∷ es) c = verdicts es c
verdicts (delegate_denied p child r ∷ es) c = verdicts es c
verdicts (mailbox s r d h ∷ es) c = verdicts es c

verdicts-append :
    (xs ys : List TeamEvent) (c : String) → verdicts (xs ++ ys) c ≡ verdicts xs c + verdicts ys c
unfolding verdicts
verdicts-append [] ys c = omega arith
verdicts-append (policy p child d ∷ xs) ys c = ground (arith, verdicts-append xs ys c)
verdicts-append (delegate p child t h d ∷ xs) ys c = verdicts-append xs ys c
verdicts-append (delegate_denied p child r ∷ xs) ys c = verdicts-append xs ys c
verdicts-append (mailbox s r d h ∷ xs) ys c = verdicts-append xs ys c

-- Whether the ledger holds the decision that the child counts as completed
unfoldable pub is_counted : List TeamEvent → String → Bool
is_counted [] c = false
is_counted (policy p child counted ∷ es) c = child == c || is_counted es c
is_counted (policy p child d ∷ es) c = is_counted es c
is_counted (delegate p child t h d ∷ es) c = is_counted es c
is_counted (delegate_denied p child r ∷ es) c = is_counted es c
is_counted (mailbox s r d h ∷ es) c = is_counted es c

pub delegations-append :
    (xs ys : List TeamEvent) (c : String)
    → delegations (xs ++ ys) c ≡ delegations xs c + delegations ys c
unfolding delegations
delegations-append [] ys c = omega arith
delegations-append (delegate p child t h d ∷ xs) ys c = ground (arith, delegations-append xs ys c)
delegations-append (delegate_denied p child r ∷ xs) ys c = delegations-append xs ys c
delegations-append (policy p child d ∷ xs) ys c = delegations-append xs ys c
delegations-append (mailbox s r d h ∷ xs) ys c = delegations-append xs ys c

is_counted-append :
    (xs ys : List TeamEvent) (c : String)
    → is_counted (xs ++ ys) c ≡ (is_counted xs c || is_counted ys c)
unfolding is_counted
is_counted-append [] ys c = refl
is_counted-append (policy p child counted ∷ xs) ys c = ground (arith, is_counted-append xs ys c)
is_counted-append (policy p child refused_again ∷ xs) ys c = is_counted-append xs ys c
is_counted-append (policy p child refused_more ∷ xs) ys c = is_counted-append xs ys c
is_counted-append (policy p child marked_denied ∷ xs) ys c = is_counted-append xs ys c
is_counted-append (policy p child not_counted ∷ xs) ys c = is_counted-append xs ys c
is_counted-append (delegate p child t h d ∷ xs) ys c = is_counted-append xs ys c
is_counted-append (delegate_denied p child r ∷ xs) ys c = is_counted-append xs ys c
is_counted-append (mailbox s r d h ∷ xs) ys c = is_counted-append xs ys c

module _ {W : Type 0} (k : Desks W) where
  -- The count of every child is the number of decisions on its runs, which is within the policy's limit
  -- and not larger than the number of its runs; and for a child that counts as completed there is a
  -- decision, namely that one.
  pub record IsHonest (desk : Desk W) : Type 0 where
    pub counts : (c : String) → count_of desk.count c ≡ verdicts desk.log c
    pub limits :
        (c : String) (most : ℕ)
        → k.policy.max_delegations_per_child ≡ some most
        → verdicts desk.log c ≤ most
    pub begun : (c : String) → verdicts desk.log c ≤ delegations desk.log c
    pub ran : (c : String) → contains desk.finished c ≡ true → 1 ≤ verdicts desk.log c
    pub recorded : (c : String) → contains desk.finished c ≡ true → is_counted desk.log c ≡ true

  -- An event that is neither a run nor a decision on one
  unfoldable pub IsIdle : TeamEvent → Type 0
  IsIdle e =
      (c : String)
      → (delegations (e ∷ []) c ≡ 0) × (verdicts (e ∷ []) c ≡ 0) × (is_counted (e ∷ []) c ≡ false)

  -- An entry that is no decision on a run keeps what the desk promises.
  noted-IsHonest :
      (e : TeamEvent) (desk : Desk W)
      → ((c : String) → (verdicts (e ∷ []) c ≡ 0) × (is_counted (e ∷ []) c ≡ false))
      → IsHonest desk
      → IsHonest (record_event e desk)
  noted-IsHonest e desk quiet h = record {
    counts = λ c. omega (arith, h.counts c, verdicts-append desk.log (e ∷ []) c, (quiet c).0);
    limits = λ c most limit.
        omega (arith, h.limits c most limit, verdicts-append desk.log (e ∷ []) c, (quiet c).0);
    begun = λ c. omega (
      arith,
      h.begun c,
      verdicts-append desk.log (e ∷ []) c,
      (quiet c).0,
      delegations-append desk.log (e ∷ []) c,
    );
    ran = λ c done. omega (arith, h.ran c done, verdicts-append desk.log (e ∷ []) c, (quiet c).0);
    recorded = λ c done. ground (arith, h.recorded c done, is_counted-append desk.log (e ∷ []) c);
  }

  pub record_event-IsHonest :
      (e : TeamEvent) (desk : Desk W) → IsIdle e → IsHonest desk → IsHonest (record_event e desk)
  unfolding IsIdle
  record_event-IsHonest e desk idle h = noted-IsHonest e desk (λ c. ((idle c).1, (idle c).2)) h

  count_of-insert :
      (d : Dict String ℕ) (child c : String) (n : ℕ)
      → count_of (insert child n d) c ≡ (if child == c then n else count_of d c)
  unfolding count_of
  count_of-insert d child c n = ground (arith, lookup-insert child c n d)

  -- The "delegate" event of a child's run, which has no decision yet
  pub called-IsHonest :
      (desk : Desk W) (child team_id eff : String) (depth : ℕ)
      → IsHonest desk
      → IsHonest (record_event (delegate k.parent child team_id eff depth) desk)
  unfolding verdicts is_counted
  called-IsHonest desk child team_id eff depth h =
      noted-IsHonest (delegate k.parent child team_id eff depth) desk (λ c. (refl, refl)) h

  pub called-runs :
      (desk : Desk W) (child team_id eff : String) (depth : ℕ)
      → IsHonest desk
      → let log = (record_event (delegate k.parent child team_id eff depth) desk).log in
        verdicts log child + 1 ≤ delegations log child
  unfolding delegations verdicts
  called-runs desk child team_id eff depth h =
      let e = delegate k.parent child team_id eff depth ∷ [] in
      ground (
        arith,
        ==_refl child,
        h.begun child,
        delegations-append desk.log e child,
        verdicts-append desk.log e child,
      )

  pub mailbox-runs :
      (log : List TeamEvent) (sender receiver hash child : String) (direction : Direction)
      → verdicts log child + 1 ≤ delegations log child
      → let sent = log ++ mailbox sender receiver direction hash ∷ [] in
        verdicts sent child + 1 ≤ delegations sent child
  unfolding delegations verdicts
  mailbox-runs log sender receiver hash child direction h =
      let e = mailbox sender receiver direction hash ∷ [] in
      omega (arith, h, delegations-append log e child, verdicts-append log e child)

  pub world-IsHonest :
      (desk : Desk W) (w : World W) → IsHonest desk → IsHonest (record desk { world = w })
  world-IsHonest desk w h = record {
    counts = h.counts;
    limits = h.limits;
    begun = h.begun;
    ran = h.ran;
    recorded = h.recorded;
  }

  mailbox-IsIdle :
      (sender receiver hash : String) (direction : Direction)
      → IsIdle (mailbox sender receiver direction hash)
  unfolding IsIdle delegations verdicts is_counted
  mailbox-IsIdle sender receiver hash direction c = (refl, refl, refl)

  pub deliver-IsHonest :
      (sender receiver body : String) (direction : Direction) (desk : Desk W)
      → IsHonest desk
      → IsHonest (deliver k sender receiver body direction desk)
  unfolding deliver
  deliver-IsHonest sender receiver body direction desk h =
      record_event-IsHonest (mailbox sender receiver direction (k.sha256 body)) _
        (mailbox-IsIdle sender receiver (k.sha256 body) direction) (world-IsHonest desk _ h)

  -- The decision on a run, with the count of the child, where the limit is not reached and one run has
  -- no decision yet; only `counted` adds the child to those that count as completed.
  pub decided-IsHonest :
      (desk : Desk W) (child : String) (d : Decision) (finished : List String)
      → is_verdict d ≡ true
      → ((c : String)
          → contains finished c ≡ true
          → (contains desk.finished c ≡ true) ⊎ ((child ≡ c) × (d ≡ counted)))
      → is_exhausted k.policy.max_delegations_per_child (count_of desk.count child) ≡ false
      → verdicts desk.log child + 1 ≤ delegations desk.log child
      → IsHonest desk
      → IsHonest (
          record_event (policy k.parent child d) (record desk {
            count = insert child (count_of desk.count child + 1) desk.count;
            finished = finished;
          }))
  unfolding delegations verdicts is_counted is_exhausted
  decided-IsHonest desk child d finished verdict from room open_run h =
      let e = policy k.parent child d ∷ [] in
      record {
        counts = λ c. ground (
          arith,
          verdict,
          h.counts c,
          h.counts child,
          count_of-insert desk.count child c (count_of desk.count child + 1),
          verdicts-append desk.log e c,
        );
        limits = λ c most limit. ground (
          arith,
          verdict,
          limit,
          room,
          h.counts child,
          h.limits c most limit,
          verdicts-append desk.log e c,
        );
        begun = λ c. ground (
          arith,
          verdict,
          open_run,
          h.begun c,
          verdicts-append desk.log e c,
          delegations-append desk.log e c,
        );
        ran = λ c done. elim (from c done) [
          | inl old ↦ ground (arith, h.ran c old, verdicts-append desk.log e c)
          | inr (same, kind) ↦ ground (arith, same, verdict, verdicts-append desk.log e c)
        ];
        recorded = λ c done. elim (from c done) [
          | inl old ↦ ground (arith, h.recorded c old, is_counted-append desk.log e c)
          | inr (same, kind) ↦ ground (arith, same, kind, is_counted-append desk.log e c)
        ];
      }
