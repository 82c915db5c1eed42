-- ===== src/Kernel/Recovery.antt =====
-- scr/kernel.py: what `recover` finds after a crash between any two steps of an execution.
use selfconnect_runtime.Base.{
  ℕ, String, ◌≡◌, refl, ap, ◌∙◌, inl, inr, Bool, true, false, Option, none, some, arith,
  if◌then◌else◌, Option-cases, string_eq,
}
use selfconnect_runtime.State.{
  Store, Record, JournalRow, assemble, model_call_done, finalize, awaiting, stop_at_call, stopped,
  exec_intent, exec_done, model_call_intent, safe_reissue, reissue_model_call, failed_needs_review,
  journal_append, journal_tail, tool_result_get, set_session_status, journal_rows,
}
use selfconnect_runtime.State.Numbering.{journal_tail-append, next_row}
use selfconnect_runtime.Kernel.Recover.{
  clean, resumed, reissue_safe, quarantined, classify, classify_entry, recover_exec, recover,
}

pub recover-tail :
    (session : String) (s : Store) (t : Option JournalRow)
    → journal_tail s session ≡ t
    → recover session s ≡ classify session s t
unfolding recover
recover-tail session s t e = ap (classify session s) e

pub recover-written :
    (session : String) (s : Store) (r : Record)
    → recover session (journal_append s session r).0
      ≡ classify session (journal_append s session r).0 (some (next_row s session r))
recover-written session s r = recover-tail session _ _ (journal_tail-append s session r).0

tail-marked :
    (session : String) (s : Store) (status : String)
    → journal_tail (set_session_status s session status) session ≡ journal_tail s session
unfolding set_session_status journal_tail journal_rows
tail-marked session s status = refl

module _ (session : String) where
  -- The store after a result was found.
  abbrev pub folded : Store → ℕ → String → Store
  folded s seq key = (journal_append s session (exec_done seq key true)).0

  abbrev pub reissuable : Store → String → Store
  reissuable s key = (journal_append s session (safe_reissue key)).0

  abbrev pub reviewed : Store → String → String → Store
  reviewed s tool key =
      set_session_status (journal_append s session (failed_needs_review tool key)).0 session
        "needs_review"

  pub recover_exec-cases :
      (s : Store) (seq : ℕ) (tool : String) (idempotent : Bool) (key : String)
      → (cached : Option String) → tool_result_get s key ≡ cached
      → recover_exec session s seq tool idempotent key ≡ elim cached [
        | some result ↦ (folded s seq key, resumed)
        | none ↦
            if idempotent
            then (reissuable s key, reissue_safe)
            else (reviewed s tool key, quarantined)
      ]
  unfolding recover_exec
  recover_exec-cases s seq tool idempotent key none e = ground (arith, e)
  recover_exec-cases s seq tool idempotent key (some result) e = ground (arith, e)

  -- What `recover` writes is no dangling intent.
  recover-settled :
      (s : Store)
      → ((seq : ℕ) (key : String) → recover session (folded s seq key) ≡ (folded s seq key, clean))
        × ((key : String) → recover session (reissuable s key) ≡ (reissuable s key, clean))
        × ((tool key : String)
            → recover session (reviewed s tool key) ≡ (reviewed s tool key, clean))
        × (recover session (journal_append s session reissue_model_call).0
            ≡ ((journal_append s session reissue_model_call).0, clean))
  unfolding classify classify_entry
  recover-settled s = (
    λ seq key. recover-written session s (exec_done seq key true),
    λ key. recover-written session s (safe_reissue key),
    λ tool key. recover-tail session (reviewed s tool key) _ (
        tail-marked session _ _ ∙ (journal_tail-append s session (failed_needs_review tool key)).0),
    recover-written session s reissue_model_call,
  )

  recover_exec-again :
      (s : Store) (seq : ℕ) (tool : String) (idempotent : Bool) (key : String)
      → let t = (recover_exec session s seq tool idempotent key).0 in recover session t ≡ (t, clean)
  recover_exec-again s seq tool true key = elim (Option-cases (tool_result_get s key)) [
    | inl absent ↦
        rw (recover_exec-cases s seq tool true key none absent) ((recover-settled s).1 key)
    | inr (result, e) ↦
        rw (recover_exec-cases s seq tool true key (some result) e) ((recover-settled s).0 seq key)
  ]
  recover_exec-again s seq tool false key = elim (Option-cases (tool_result_get s key)) [
    | inl absent ↦
        rw (recover_exec-cases s seq tool false key none absent) ((recover-settled s).2 tool key)
    | inr (result, e) ↦
        rw (recover_exec-cases s seq tool false key (some result) e) ((recover-settled s).0 seq key)
  ]

  classify_entry-again :
      (s : Store) (seq : ℕ) (entry : Record)
      → recover session s ≡ classify_entry session s seq entry
      → let t = (classify_entry session s seq entry).0 in recover session t ≡ (t, clean)
  unfolding classify_entry
  classify_entry-again s seq (model_call_intent iteration) e = (recover-settled s).3
  classify_entry-again s seq (exec_intent tool args idempotent key) e =
      recover_exec-again s seq tool idempotent key
  classify_entry-again s seq (assemble) e = e
  classify_entry-again s seq (model_call_done i q n) e = e
  classify_entry-again s seq (finalize i) e = e
  classify_entry-again s seq (exec_done q key r) e = e
  classify_entry-again s seq (awaiting id t a calls) e = e
  classify_entry-again s seq (stop_at_call name) e = e
  classify_entry-again s seq (stopped r) e = e
  classify_entry-again s seq (reissue_model_call) e = e
  classify_entry-again s seq (safe_reissue key) e = e
  classify_entry-again s seq (failed_needs_review t key) e = e

  classify-again :
      (s : Store) (o : Option JournalRow)
      → journal_tail s session ≡ o
      → let t = (classify session s o).0 in recover session t ≡ (t, clean)
  unfolding classify
  classify-again s none e = recover-tail session s none e
  classify-again s (some row) e =
      classify_entry-again s row.seq row.entry (recover-tail session s (some row) e)

  -- Whatever the store, a second `recover` after a first finds the session clean and changes
  -- nothing.
  pub recover-again : (s : Store) → let t = (recover session s).0 in recover session t ≡ (t, clean)
  unfolding recover
  recover-again s = classify-again s (journal_tail s session) refl
