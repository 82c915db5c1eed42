-- ===== src/Kernel/Crashes.antt =====
-- scr/kernel.py: what `recover` finds after a crash between any two steps of `_execute_call`.
use selfconnect_runtime.Base.{
  ℕ, ◌+◌, String, ◌≡◌, refl, sym, ap, ◌∙◌, inl, inr, Bool, false, Option, none, some, arith,
  if◌then◌else◌, Option-cases, string_eq, ok,
}
use selfconnect_runtime.Gateway.{ToolCall}
use selfconnect_runtime.State.{
  Store, Record, JournalRow, exec_intent, exec_done, journal_append, journal_tail, journal_rows,
  tool_result_get, tool_result_put,
}
use selfconnect_runtime.State.Numbering.{journal_tail-append, next_row}
use selfconnect_runtime.State.Keyed.{tool_result_get-put}
use selfconnect_runtime.Ledger
use selfconnect_runtime.Kernel.Events.{Event, tool_exec, tool_error}
use selfconnect_runtime.Kernel.Env.{Kernel, ToolSpec}
use selfconnect_runtime.Kernel.Monad.{
  World, K, pure, reads, calls, ◌>>=◌, journals, ledgers, persists,
}
use selfconnect_runtime.Kernel.Text.{
  idem_key, error_class, clip, args_sha256, arg_path, primary_keys,
}
use selfconnect_runtime.Kernel.Execute.{
  permitted, key_of, tail_seq, intend, result_for, run_tool, conclude, execute_call,
  ledger_tool_error,
}
use selfconnect_runtime.Kernel.Recover.{
  clean, resumed, reissue_safe, quarantined, classify, classify_entry, recover,
}
use selfconnect_runtime.Kernel.Effects.{put_result}
use selfconnect_runtime.Kernel.Recovery.{
  recover-tail, recover-written, recover_exec-cases, folded, reissuable, reviewed,
}

pair_path : {A B : Type 0} {a a' : A} {b b' : B} → a ≡ a' → b ≡ b' → Path (A × B) (a, b) (a', b')
pair_path p q = cc

results-append :
    (session : String) (s : Store) (r : Record) (key : String)
    → tool_result_get (journal_append s session r).0 key ≡ tool_result_get s key
unfolding tool_result_get journal_append
results-append session s r key = refl

-- Putting a result under a key that has none.
put_new :
    (s : Store) (key session tool result : String)
    → tool_result_get s key ≡ none
    → let t = tool_result_put s key session tool result in
      (tool_result_get t key ≡ some result) × (t.journal ≡ s.journal)
put_new s key session tool result absent = (
  ground (arith, tool_result_get-put s key session tool result key),
  ap (λ (t : Store). t.journal) (put_result s key session tool result).1,
)

module _ {W : Type 0} (k : Kernel W) (session : String) (call : ToolCall) where
  -- The key that an execution started in a store gets.
  abbrev pub key_in : Store → String
  key_in s = idem_key k.py session (tail_seq (journal_tail s session) + 1) call.name call.arguments

  intend_lem :
      (idempotent : Bool) (w : World W)
      → let r = exec_intent call.name call.arguments idempotent (key_in w.store) in
        intend k session call idempotent w ≡ (
          ((next_row w.store session r).seq, key_in w.store),
          record w { store = (journal_append w.store session r).0 },
        )
  unfolding intend ◌>>=◌ pure reads journals
  intend_lem idempotent w =
      let (tail, last, number) =
        journal_tail-append w.store session
          (exec_intent call.name call.arguments idempotent (key_in w.store)) in
      ap
        (λ (p : ℕ × Option JournalRow). (
          (p.0, key_of p.1),
          record w {
            store =
                (journal_append w.store session
                  (exec_intent call.name call.arguments idempotent (key_in w.store))).0;
          },
        ))
        (pair_path number last)

  -- A crash after the write-ahead record and before a result: what `recover` decides.
  pub recover-intend :
      (idempotent : Bool) (w : World W)
      → tool_result_get w.store (key_in w.store) ≡ none
      → let (intent, w') = intend k session call idempotent w in
        (w'.world ≡ w.world)
        × (recover session w'.store ≡ (
            if idempotent
            then (reissuable session w'.store (key_in w.store), reissue_safe)
            else (reviewed session w'.store call.name (key_in w.store), quarantined)))
  unfolding classify classify_entry
  recover-intend idempotent w absent = rw (intend_lem idempotent w) (
    refl,
    rw
        (recover-written session w.store
          (exec_intent call.name call.arguments idempotent (key_in w.store)))
        (recover_exec-cases session _ _ call.name idempotent (key_in w.store) none (
          results-append session w.store
            (exec_intent call.name call.arguments idempotent (key_in w.store)) (key_in w.store)
          ∙ absent)),
  )

  -- `run` gives a result and leaves the store alone.
  abbrev pub Leaves : K W String → Type 0
  Leaves run = (w : World W) → (run w).1.store ≡ w.store

  result_for-cases :
      (key : String) (run : K W String)
      → Leaves run
      → (w : World W) (cached : Option String) → tool_result_get w.store key ≡ cached
      → let (result, w') = result_for k session call key run w in
        (tool_result_get w'.store key ≡ some result)
        × (w'.store.journal ≡ w.store.journal)
        × (w'.world ≡ (elim cached [ none ↦ (run w).1.world | some _ ↦ w.world ]))
  unfolding result_for ◌>>=◌ pure reads persists
  result_for-cases key run leaves w none e = rw e (
    ground (arith, put_new (run w).1.store key session call.name (run w).0, leaves w),
    (put_new (run w).1.store key session call.name (run w).0
          (ap (λ s. tool_result_get s key) (leaves w) ∙ e)).1
        ∙ ap (λ (t : Store). t.journal) (leaves w),
    refl,
  )
  result_for-cases key run leaves w (some result) e = rw e (e, refl, refl)

  run_tool-Leaves : (spec : ToolSpec W) → Leaves (run_tool k session spec call)
  unfolding run_tool ◌>>=◌ pure calls
  run_tool-Leaves spec w = refl

  tail-journal :
      (s t : Store) → t.journal ≡ s.journal → journal_tail t session ≡ journal_tail s session
  unfolding journal_tail journal_rows
  tail-journal s t e = rw e refl

  -- A crash after the result is stored and before EXEC_DONE: `recover` folds the stored result,
  -- which is the one that the call has.
  pub recover-result_for :
      (spec : ToolSpec W) (idempotent : Bool) (w : World W)
      → let (intent, w') = intend k session call idempotent w in
        let (result, stored) =
          result_for k session call intent.1 (run_tool k session spec call) w' in
        (tool_result_get stored.store intent.1 ≡ some result)
        × (recover session stored.store ≡ (folded session stored.store intent.0 intent.1, resumed))
  unfolding classify classify_entry
  recover-result_for spec idempotent w = rw (intend_lem idempotent w) (
      let r = exec_intent call.name call.arguments idempotent (key_in w.store) in
      let w' = record w { store = (journal_append w.store session r).0 } in
      let (got, same, _) =
        result_for-cases (key_in w.store) (run_tool k session spec call) (run_tool-Leaves spec) w'
          (tool_result_get w'.store (key_in w.store)) refl in
      (
        got,
        recover-tail session _ _
              (tail-journal w'.store _ same ∙ (journal_tail-append w.store session r).0)
            ∙ recover_exec-cases session _ _ call.name idempotent (key_in w.store) (some _) got,
      ))

  -- The two stores agree on what `recover` and the cache of results read.
  abbrev Keeps : World W → World W → Type 0
  Keeps w w' =
      (w'.store.journal ≡ w.store.journal)
      × (w'.store.tool_results ≡ w.store.tool_results)
      × (w'.world ≡ w.world)

  ledgers-Keeps : (e : Event) (w : World W) → Keeps w (ledgers k.py.codec session e w).1
  unfolding ledgers Ledger.append
  ledgers-Keeps e w = (refl, refl, refl)

  ledger_tool_error-Keeps :
      (tool result : String) (w : World W) → Keeps w (ledger_tool_error k session tool result w).1
  unfolding ledger_tool_error pure
  ledger_tool_error-Keeps tool result w = elim (Option-cases (error_class result)) [
    | inl e ↦ rw e (refl, refl, refl)
    | inr (name, e) ↦ rw e (ledgers-Keeps (tool_error tool name (clip 200 result)) w)
  ]

  results-table :
      (s : Store) (r : Record) → (journal_append s session r).0.tool_results ≡ s.tool_results
  unfolding journal_append
  results-table s r = refl

  results-get :
      (s t : Store) (key : String)
      → t.tool_results ≡ s.tool_results
      → tool_result_get t key ≡ tool_result_get s key
  unfolding tool_result_get
  results-get s t key e = rw e refl

  -- The records after an execution: EXEC_DONE is the tail of the journal, and the stored results and
  -- the world are as before.
  conclude_lem :
      (seq : ℕ) (key : String) (par : Bool) (result : String) (w : World W)
      → let (told, w') = conclude k session call seq key par result w in
        (told ≡ result)
        × (journal_tail w'.store session
            ≡ some (next_row w.store session (exec_done seq key false)))
        × (w'.store.tool_results ≡ w.store.tool_results)
        × (w'.world ≡ w.world)
  unfolding conclude ◌>>=◌ pure journals
  conclude_lem seq key par result w =
      let done = journals session (exec_done seq key false) w in
      let executed =
        tool_exec call.name (args_sha256 k.py call.arguments) (k.py.codec.sha256 result) key par
          (arg_path call.arguments primary_keys) in
      let w1 = (ledgers k.py.codec session executed done.1).1 in
      let (journal, results, world) = ledgers-Keeps executed done.1 in
      let (journal', results', world') = ledger_tool_error-Keeps call.name result w1 in
      (
        refl,
        tail-journal done.1.store _ (journal' ∙ journal)
            ∙ (journal_tail-append w.store session (exec_done seq key false)).0,
        results' ∙ results ∙ results-table w.store (exec_done seq key false),
        world' ∙ world,
      )

  ran :
      (spec : ToolSpec W) (w : World W) (cached : Option String)
      → (elim cached [ none ↦ (run_tool k session spec call w).1.world | some _ ↦ w.world ])
        ≡ elim cached [ none ↦ (spec.fn call.arguments w.world).1 | some _ ↦ w.world ]
  unfolding run_tool ◌>>=◌ pure calls
  ran spec w none = refl
  ran spec w (some result) = refl

  -- An execution that the capability checks let through, from any store: the tool ran if and only if
  -- there was no result under the key, the call's result is stored under that key, and `recover`
  -- then finds the session clean and changes nothing.
  pub recover-execute_call :
      (spec : ToolSpec W) (w : World W)
      → permitted k session call ≡ ok spec
      → let (result, w') = execute_call k session call w in
        (tool_result_get w'.store (key_in w.store) ≡ some result)
        × (w'.world ≡ elim (tool_result_get w.store (key_in w.store)) [
          | none ↦ (spec.fn call.arguments w.world).1
          | some _ ↦ w.world
        ])
        × (recover session w'.store ≡ (w'.store, clean))
  unfolding execute_call ◌>>=◌ classify classify_entry
  recover-execute_call spec w h =
      rw (h, intend_lem spec.idempotent w)
        (let key = key_in w.store in
          let r = exec_intent call.name call.arguments spec.idempotent key in
          let w1 = record w { store = (journal_append w.store session r).0 } in
          let run = run_tool k session spec call in
          let (got, same, world) =
            result_for-cases key run (run_tool-Leaves spec) w1 (tool_result_get w.store key)
              (results-append session w.store r key) in
          let (result, w2) = result_for k session call key run w1 in
          let seq = (next_row w.store session r).seq in
          let (told, tail, results, world') = conclude_lem seq key false result w2 in
          let last = (conclude k session call seq key false result w2).1 in
          (
            results-get w2.store last.store key results ∙ got ∙ ap some (sym told),
            world' ∙ world ∙ ran spec w1 (tool_result_get w.store key),
            recover-tail session last.store _ tail,
          ))
