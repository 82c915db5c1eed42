-- ===== src/State/Keyed.antt =====
-- The keyed tables: results and decisions are written once, tokens are overwritten, and an
-- idempotency key has at most one job.
use selfconnect_runtime.Base.{
  ℕ, String, ◌≡◌, refl, inl, inr, Bool, true, false, not, Option, none, some, List, [], ◌∷◌, ◌++◌,
  arith, if◌then◌else◌, Option-cases, string_eq, ◌==◌, filter, find, any, ok,
}
use selfconnect_runtime.State.Schema.{ToolResultRow, ApprovalRow, JobRow, TokenRow, Store}
use selfconnect_runtime.State.Tables.{
  tool_result_get, tool_result_put, approval_get, approval_put, JobHandle, job_upsert, token_get,
  token_put,
}

module _ {A : Type 0} (p : A → Bool) where
  pub find-append :
      (xs ys : List A) → find p (xs ++ ys) ≡ elim (find p xs) [ none ↦ find p ys | some x ↦ some x ]
  unfolding find
  find-append [] ys = refl
  find-append (x ∷ xs) ys = ground (arith, find-append xs ys)

  pub any-find : (xs : List A) → any p xs ≡ elim (find p xs) [ none ↦ false | some x ↦ true ]
  unfolding find any
  any-find [] = refl
  any-find (x ∷ xs) = ground (arith, any-find xs)

-- The value that was there, or else the new one.
abbrev pub keep_first : {A : Type 0} → Option A → A → Option A
keep_first none new = some new
keep_first (some old) new = some old

-- After a result is put under a key, that key has the result that it had before, or the new one if
-- it had none, and every other key reads as before.
pub tool_result_get-put :
    (s : Store) (key session tool result other : String)
    → tool_result_get (tool_result_put s key session tool result) other ≡ (
        if key == other
        then keep_first (tool_result_get s other) result
        else tool_result_get s other)
unfolding tool_result_get tool_result_put find
tool_result_get-put s key session tool result other = ground (
  arith,
  any-find (λ (r : ToolResultRow). r.idem_key == key) s.tool_results,
  find-append (λ (r : ToolResultRow). r.idem_key == other) s.tool_results
      (record { idem_key = key; session_id = session; tool = tool; result = result } ∷ []),
)

-- After a decision is recorded under an approval id, that id has the decision that it had before,
-- or the new one if it had none, and every other id reads as before.
pub approval_get-put :
    (s : Store) (id session status approver other : String)
    → approval_get (approval_put s id session status approver) other ≡ (
        if id == other
        then keep_first (approval_get s other) (record { status = status; approver = approver })
        else approval_get s other)
unfolding approval_get approval_put find
approval_get-put s id session status approver other = ground (
  arith,
  any-find (λ (r : ApprovalRow). r.approval_id == id) s.approvals,
  find-append (λ (r : ApprovalRow). r.approval_id == other) s.approvals
      (record { approval_id = id; session_id = session; status = status; approver = approver }
        ∷ []),
)

-- A second enqueue under an idempotency key schedules nothing: it returns the first one's job and
-- session, marked as a duplicate, and leaves the store alone.
pub job_upsert_again :
    (s t : Store) (j j' session session' key text text' : String) (now now' : ℕ) (h : JobHandle)
    → job_upsert s j session key "queued" text now ≡ ok (t, h)
    → job_upsert t j' session' key "queued" text' now' ≡ ok (t, record h { deduped = true })
job_upsert_again s t j j' session session' key text text' now now' h e =
    elim (Option-cases (find (λ (r : JobRow). r.idem_key == key) s.jobs)) [
      | inr (r, found) ↦ unfold job_upsert in ground (arith, found)
      | inl missing ↦
          unfold job_upsert find in
          ground (
            arith,
            missing,
            find-append (λ (r : JobRow). r.idem_key == key) s.jobs
                (record {
                  job_id = j;
                  session_id = session;
                  idem_key = key;
                  status = "queued";
                  user_text = text;
                  created_at = now;
                }
                  ∷ []),
          )
    ]

find-filter :
    (token other : String) (rows : List TokenRow)
    → find
        (λ (r : TokenRow). r.token == other)
        (filter (λ (r : TokenRow). not (r.token == token)) rows)
      ≡ (if token == other then none else find (λ (r : TokenRow). r.token == other) rows)
unfolding find filter
find-filter token other [] = ground arith
find-filter token other (r ∷ rows) = ground (arith, find-filter token other rows)

-- A token reads as the subject and role that were put last, and other tokens as before.
pub token_get-put :
    (s : Store) (token subject role other : String)
    → token_get (token_put s token subject role) other ≡ (
        if token == other
        then some (record { token = token; subject = subject; role = role })
        else token_get s other)
unfolding token_get token_put find
token_get-put s token subject role other = ground (
  arith,
  find-append (λ (r : TokenRow). r.token == other)
      (filter (λ (r : TokenRow). not (r.token == token)) s.agent_tokens)
      (record { token = token; subject = subject; role = role } ∷ []),
  find-filter token other s.agent_tokens,
)
