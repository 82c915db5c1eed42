-- ===== src/Kernel/Pending.antt =====
-- scr/kernel.py: the loop over pending tool calls, and the pause for an approval.
use selfconnect_runtime.Base.{
  ℕ, zero, suc, ◌+◌, ◌≤◌, String, ◌≡◌, refl, sym, ap, ◌∙◌, inl, inr, true, none, some, List, [],
  ◌∷◌, ◌++◌, arith, leb, Bool-cases, leb→le, string_eq, ◌==◌, length, any, All, length-append,
}
use selfconnect_runtime.Gateway.{ToolCall}
use selfconnect_runtime.State.{
  Store, Record, ApprovalRow, awaiting, journal_append, journal_tail, journal_rows, approval_get,
  approval_put,
}
use selfconnect_runtime.State.Numbering.{journal_tail-append}
use selfconnect_runtime.State.Keyed.{approval_get-put}
use selfconnect_runtime.Ledger
use selfconnect_runtime.Kernel.Events.{Event, approval, approval_required}
use selfconnect_runtime.Kernel.Env.{Kernel}
use selfconnect_runtime.Kernel.Monad.{World, ◌>>=◌, pure, reads, journals, ledgers}
use selfconnect_runtime.Kernel.Text.{approval_id, args_sha256}
use selfconnect_runtime.Kernel.Execute.{
  needs_approval, batch_eligible, eligible_run, execute_single, pause, pending_rounds,
  execute_pending,
}
use selfconnect_runtime.Kernel.Loop.{pending_of, decide}

module _ {W : Type 0} (k : Kernel W) (session : String) where
  eligible_run-splits :
      (pending : List ToolCall)
      → let (batch, later) = eligible_run k session pending in
        (batch ++ later ≡ pending) × All (λ call. batch_eligible k session call ≡ true) batch
  unfolding eligible_run
  eligible_run-splits [] = (refl, tt)
  eligible_run-splits (call ∷ rest) = elim (Bool-cases (batch_eligible k session call)) [
    | inl fits ↦ rw fits (
        let (e, h) = eligible_run-splits rest in
        (ap (λ (cs : List ToolCall). call ∷ cs) e, (fits, h)))
    | inr bars ↦ rw bars (refl, tt)
  ]

  eligible_run-length :
      (pending : List ToolCall)
      → length (eligible_run k session pending).0 + length (eligible_run k session pending).1
        ≡ length pending
  eligible_run-length pending =
      sym (length-append (eligible_run k session pending).0 (eligible_run k session pending).1)
      ∙ ap length (eligible_run-splits pending).0

  enough :
      (fuel more : ℕ) (pending : List ToolCall)
      → length pending ≤ fuel
      → length pending ≤ more
      → pending_rounds k session fuel pending ≡ pending_rounds k session more pending
  unfolding pending_rounds
  enough fuel more [] le le' = refl
  enough zero more (call ∷ rest) le le' = ground (arith, le)
  enough (suc fuel) zero (call ∷ rest) le le' = ground (arith, le')
  enough (suc fuel) (suc more) (call ∷ rest) le le' =
      let single = enough fuel more rest (omega (arith, le)) (omega (arith, le')) in
      elim (Bool-cases (leb 2 (length (eligible_run k session (call ∷ rest)).0))) [
        | inr alone ↦ rw (alone, single) refl
        | inl many ↦
            let two = leb→le 2 (length (eligible_run k session (call ∷ rest)).0) many in
            let whole = eligible_run-length (call ∷ rest) in
            let after =
              enough fuel more (eligible_run k session (call ∷ rest)).1
                (omega (arith, two, whole, le)) (omega (arith, two, whole, le')) in
            rw (many, after) refl
      ]

  -- The rounds of the pending loop are enough: with any fuel of at least one round for each call, the
  -- loop does what `execute_pending` does, so its clause for no fuel is never reached.
  pub pending_rounds-enough :
      (fuel : ℕ) (pending : List ToolCall)
      → length pending ≤ fuel
      → pending_rounds k session fuel pending ≡ execute_pending k session pending
  unfolding execute_pending
  pending_rounds-enough fuel pending le = enough fuel (length pending) pending le (omega arith)

  tail-ledgered :
      (s : Store) (e : Event)
      → (journal_tail (Ledger.append k.py.codec s session e).0 session ≡ journal_tail s session)
        × ((id : String)
            → approval_get (Ledger.append k.py.codec s session e).0 id ≡ approval_get s id)
  unfolding Ledger.append journal_tail journal_rows approval_get
  tail-ledgered s e = (refl, λ id. refl)

  tail-decided :
      (s : Store) (id decision approver : String)
      → journal_tail (approval_put s id session decision approver) session ≡ journal_tail s session
  unfolding approval_put journal_tail journal_rows
  tail-decided s id decision approver =
      elim (Bool-cases (any (λ (r : ApprovalRow). r.approval_id == id) s.approvals)) [
        | inl old ↦ rw old refl
        | inr new ↦ rw new refl
      ]

  approvals-journaled :
      (s : Store) (r : Record) (id : String)
      → approval_get (journal_append s session r).0 id ≡ approval_get s id
  unfolding approval_get journal_append
  approvals-journaled s r id = refl

  -- A call that needs an approval and has none on record pauses the run: the world is as before and
  -- the call's approval id is returned. After any decision on that id, `resume` finds the pending
  -- calls at the tail of the journal, and the decision on record.
  pub execute_single-paused :
      (call : ToolCall) (pending : List ToolCall) (w : World W) (decision approver : String)
      → needs_approval k session call ≡ true
      → approval_get w.store (approval_id k.py session call) ≡ none
      → let id = approval_id k.py session call in
        let (paused, w') = execute_single k session call pending w in
        let s = decide k session decision id approver w'.store in
        (paused ≡ some id)
        × (w'.world ≡ w.world)
        × (pending_of (journal_tail s session) ≡ some pending)
        × (approval_get s id ≡ some (record { status = decision; approver = approver }))
  unfolding execute_single pause ◌>>=◌ pure reads journals ledgers decide
  execute_single-paused call pending w decision approver needs none_yet =
      let id = approval_id k.py session call in
      let r = awaiting id call.name call.arguments pending in
      let s1 = (journal_append w.store session r).0 in
      let asked = approval_required call.name id (args_sha256 k.py call.arguments) in
      let s2 = (Ledger.append k.py.codec s1 session asked).0 in
      let s3 = approval_put s2 id session decision approver in
      let told = approval decision id approver in
      rw (needs, none_yet)
        (
          refl,
          refl,
          ap pending_of (
              (tail-ledgered s3 told).0
              ∙ tail-decided s2 id decision approver
              ∙ (tail-ledgered s1 asked).0
              ∙ (journal_tail-append w.store session r).0),
          (tail-ledgered s3 told).1 id
              ∙ ground (
                arith,
                approval_get-put s2 id session decision approver id,
                (tail-ledgered s1 asked).1 id,
                approvals-journaled w.store r id,
                none_yet,
              ),
        )
