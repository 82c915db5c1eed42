-- ===== src/Kernel/Growth.antt =====
-- What a run keeps: the numbering of the journal, the chain of the ledger, and all that was there.
use selfconnect_runtime.Base.{
  String, ◌≡◌, sym, ap, ◌∙◌, subst, Option, none, some, List, [], ◌∷◌, ◌++◌, arith, string_eq,
  length, lookup,
}
use mathlib.Core.List.{append-nil, append_assoc}
use selfconnect_runtime.State.{
  Store, Record, journal_append, journal_rows, add_message, get_messages, tool_result_get,
  tool_result_put,
}
use selfconnect_runtime.State.Numbering.{
  IsNumbered, journal_append-IsNumbered, journal_rows-append, next_row,
}
use selfconnect_runtime.State.Keyed.{tool_result_get-put}
use selfconnect_runtime.Ledger
use selfconnect_runtime.Ledger.{Codec, ledger_rows, head, seal_of, verify}
use selfconnect_runtime.Ledger.Chain.{
  ReadsBack, IsChained, append-IsChained, ledger_rows-append, appended_row,
}
use selfconnect_runtime.Ledger.Sealed.{accepted, seal_of-lookup, verify-unsealed}
use selfconnect_runtime.Kernel.Events.{Event}
use selfconnect_runtime.Kernel.Env.{Kernel}
use selfconnect_runtime.Kernel.Monad.{World}
use selfconnect_runtime.Kernel.Loop.{run}
use selfconnect_runtime.Kernel.Evolution.{Evolves, here, journaled, ledgered, said, persisted}
use selfconnect_runtime.Kernel.Runs.{Runs-run}
use selfconnect_runtime.Kernel.Effects.{put_result, get_messages-add, Untouched, Evolves-Untouched}

-- `ys` is `xs` with more behind it.
abbrev pub Extends : {A : Type 0} → List A → List A → Type 0
Extends {A} xs ys = (more : List A) × (ys ≡ xs ++ more)

Extends-trans : {A : Type 0} (xs ys zs : List A) → Extends xs ys → Extends ys zs → Extends xs zs
Extends-trans xs ys zs (m, e) (n, f) = (m ++ n, f ∙ ap (λ l. l ++ n) e ∙ append_assoc xs m n)

Extends-refl : {A : Type 0} (xs : List A) → Extends xs xs
Extends-refl xs = ([], sym (append-nil xs))

module _ (c : Codec Event) (session : String) where
  -- The rows of a session and the stored results only grow.
  pub record Grows (s t : Store) : Type 0 where
    pub journal : Extends (journal_rows s session) (journal_rows t session)
    pub ledger : Extends (ledger_rows s session) (ledger_rows t session)
    pub conversation : Extends (get_messages s session) (get_messages t session)
    pub results :
        (key result : String)
        → tool_result_get s key ≡ some result
        → tool_result_get t key ≡ some result

  Grows-trans : (s t u : Store) → Grows s t → Grows t u → Grows s u
  Grows-trans s t u p q = record {
    journal = Extends-trans _ _ _ p.journal q.journal;
    ledger = Extends-trans _ _ _ p.ledger q.ledger;
    conversation = Extends-trans _ _ _ p.conversation q.conversation;
    results = λ key result h. q.results key result (p.results key result h);
  }

  Grows-refl : (s : Store) → Grows s s
  Grows-refl s = record {
    journal = Extends-refl _;
    ledger = Extends-refl _;
    conversation = Extends-refl _;
    results = λ key result h. h;
  }

  journaled-Grows : (s : Store) (r : Record) → Grows s (journal_append s session r).0
  unfolding journal_append ledger_rows get_messages tool_result_get
  journaled-Grows s r = record {
    journal = (next_row s session r ∷ [], ground (arith, journal_rows-append s session session r));
    ledger = Extends-refl _;
    conversation = Extends-refl _;
    results = λ key result h. h;
  }

  ledgered-Grows : (s : Store) (e : Event) → Grows s (Ledger.append c s session e).0
  unfolding Ledger.append journal_rows get_messages tool_result_get
  ledgered-Grows s e = record {
    journal = Extends-refl _;
    ledger =
        (appended_row c s session e ∷ [], ground (arith, ledger_rows-append c s session session e));
    conversation = Extends-refl _;
    results = λ key result h. h;
  }

  said-Grows : (s : Store) (role content : String) → Grows s (add_message s session role content)
  unfolding add_message journal_rows ledger_rows tool_result_get
  said-Grows s role content = record {
    journal = Extends-refl _;
    ledger = Extends-refl _;
    conversation = (
      record { role = role; content = content } ∷ [],
      ground (arith, get_messages-add s session role content session),
    );
    results = λ key result h. h;
  }

  persisted-Grows :
      (s : Store) (key tool result : String) → Grows s (tool_result_put s key session tool result)
  persisted-Grows s key tool result =
      let (rows, e) = put_result s key session tool result in
      record {
        journal = rw e (unfold journal_rows in Extends-refl _);
        ledger = rw e (unfold ledger_rows in Extends-refl _);
        conversation = rw e (unfold get_messages in Extends-refl _);
        results =
            λ other old h. ground (arith, tool_result_get-put s key session tool result other);
      }

  pub Evolves-Grows : (s : Store) {t : Store} → Evolves c session s t → Grows s t
  Evolves-Grows s here = Grows-refl s
  Evolves-Grows s (journaled {t = t} p r) =
      Grows-trans s t _ (Evolves-Grows s p) (journaled-Grows t r)
  Evolves-Grows s (ledgered {t = t} p e) =
      Grows-trans s t _ (Evolves-Grows s p) (ledgered-Grows t e)
  Evolves-Grows s (said {t = t} p role content) =
      Grows-trans s t _ (Evolves-Grows s p) (said-Grows t role content)
  Evolves-Grows s (persisted {t = t} p key tool result) =
      Grows-trans s t _ (Evolves-Grows s p) (persisted-Grows t key tool result)

  pub Evolves-IsNumbered : {s t : Store} → Evolves c session s t → IsNumbered s → IsNumbered t
  unfolding journal_rows Ledger.append add_message
  Evolves-IsNumbered here h = h
  Evolves-IsNumbered (journaled {t = t} p r) h =
      (journal_append-IsNumbered t session r (Evolves-IsNumbered p h)).0
  Evolves-IsNumbered (ledgered p e) h = Evolves-IsNumbered p h
  Evolves-IsNumbered (said p role content) h = Evolves-IsNumbered p h
  Evolves-IsNumbered (persisted {t = t} p key tool result) h =
      let (rows, e) = put_result t key session tool result in
      subst IsNumbered (sym e) (Evolves-IsNumbered p h)

  pub Evolves-IsChained : {s t : Store} → Evolves c session s t → IsChained c s → IsChained c t
  unfolding ledger_rows journal_append add_message
  Evolves-IsChained here h = h
  Evolves-IsChained (journaled p r) h = Evolves-IsChained p h
  Evolves-IsChained (ledgered {t = t} p e) h =
      append-IsChained c t session e (Evolves-IsChained p h)
  Evolves-IsChained (said p role content) h = Evolves-IsChained p h
  Evolves-IsChained (persisted {t = t} p key tool result) h =
      let (rows, e) = put_result t key session tool result in
      subst (IsChained c) (sym e) (Evolves-IsChained p h)

module _ {W : Type 0} (k : Kernel W) (session : String) where
  abbrev pub after_run : String → World W → Store
  after_run text w = (run k session text w).1.store

  -- For a kernel whose tools do not themselves write the store (so not for an agent with the
  -- `delegate` tool), and whatever the model answers: the kernel's run changes no approval, job, session
  -- status, seal, mailbox, token, seat or team row, and no journal, ledger or message row of another
  -- session; and what its own session's journal, ledger and messages held before, and every stored
  -- result, is still there, at the same place.
  pub run-Untouched :
      (text : String) (w : World W)
      → Untouched k.py.codec session w.store (after_run text w)
        × Grows k.py.codec session w.store (after_run text w)
  run-Untouched text w = (
    Evolves-Untouched k.py.codec session w.store ((Runs-run k session text).at w),
    Evolves-Grows k.py.codec session w.store ((Runs-run k session text).at w),
  )

  -- For a kernel whose tools do not themselves write the store (so not for an agent with the
  -- `delegate` tool), and whatever the model answers: the kernel's run, in a store whose journals are
  -- numbered without a gap and whose ledgers are hash chains, leaves every session's journal and ledger
  -- so.
  pub run-IsChained :
      (text : String) (w : World W)
      → IsNumbered w.store
      → IsChained k.py.codec w.store
      → IsNumbered (after_run text w) × IsChained k.py.codec (after_run text w)
  run-IsChained text w numbered chained =
      let p = (Runs-run k session text).at w in
      (
        Evolves-IsNumbered k.py.codec session p numbered,
        Evolves-IsChained k.py.codec session p chained,
      )

  -- Where `json.loads` reads back what `json.dumps` writes, a run of a session that is not sealed, in
  -- a store whose ledgers are hash chains, leaves a ledger that `verify` accepts under any key.
  pub run-verifies :
      ReadsBack k.py.codec
      → (text : String) (w : World W) (key : Option String) → IsChained k.py.codec w.store
      → seal_of w.store session ≡ none
      → verify k.py.codec (after_run text w) session key
        ≡ accepted
            (length (ledger_rows (after_run text w) session))
            (head (after_run text w) session).0
  run-verifies back text w key chained unsealed =
      let p = (Runs-run k session text).at w in
      let untouched = Evolves-Untouched k.py.codec session w.store p in
      verify-unsealed k.py.codec back (after_run text w) session key
        (Evolves-IsChained k.py.codec session p chained)
        (seal_of-lookup (after_run text w) session
          ∙ ap (lookup session) untouched.seals
          ∙ sym (seal_of-lookup w.store session)
          ∙ unsealed)
