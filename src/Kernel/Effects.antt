-- ===== src/Kernel/Effects.antt =====
-- What a run leaves alone: the tables that it does not write, and the rows of other sessions.
use selfconnect_runtime.Base.{
  String, ◌≡◌, refl, sym, ◌∙◌, subst, ◌≢◌, inl, inr, List, [], ◌∷◌, ◌++◌, arith, if◌then◌else◌,
  Bool-cases, string_eq, ◌==◌, filter, any, filter-append,
}
use mathlib.Core.List.{append-nil, map-append}
use selfconnect_runtime.State.{
  Store, Record, ToolResultRow, journal_append, journal_rows, add_message, get_messages,
  tool_result_put,
}
use selfconnect_runtime.State.Numbering.{journal_rows-append}
use selfconnect_runtime.Ledger
use selfconnect_runtime.Ledger.{Codec, ledger_rows, head, seal_of, verify}
use selfconnect_runtime.Ledger.Chain.{ledger_rows-append}
use selfconnect_runtime.Kernel.Events.{Event}
use selfconnect_runtime.Kernel.Evolution.{Evolves, here, journaled, ledgered, said, persisted}

-- Putting a result changes the results alone.
pub put_result :
    (s : Store) (key session tool result : String)
    → (rows : List ToolResultRow) × (tool_result_put s key session tool result
        ≡ record s { tool_results = rows })
unfolding tool_result_put
put_result s key session tool result =
    elim (Bool-cases (any (λ (r : ToolResultRow). r.idem_key == key) s.tool_results)) [
      | inl old ↦ (s.tool_results, ground arith)
      | inr new ↦ (
        s.tool_results
            ++ record { idem_key = key; session_id = session; tool = tool; result = result } ∷ [],
        ground arith,
      )
    ]

pub get_messages-add :
    (s : Store) (session role content other : String)
    → get_messages (add_message s session role content) other ≡ (
        if session == other
        then get_messages s other ++ record { role = role; content = content } ∷ []
        else get_messages s other)
unfolding get_messages add_message filter
get_messages-add s session role content other =
    rw (filter-append, map-append) (ground (arith, append-nil (get_messages s other)))

module _ (c : Codec Event) (session : String) where
  -- The tables that the kernel leaves alone, and the other sessions' rows in those that it writes.
  pub record Untouched (s t : Store) : Type 0 where
    pub approvals : t.approvals ≡ s.approvals
    pub jobs : t.jobs ≡ s.jobs
    pub sessions : t.sessions ≡ s.sessions
    pub seals : t.seals ≡ s.seals
    pub mailbox : t.mailbox ≡ s.mailbox
    pub tokens : t.agent_tokens ≡ s.agent_tokens
    pub seats : t.seat_holders ≡ s.seat_holders
    pub teams : t.team_sessions ≡ s.team_sessions
    pub journal : (other : String) → other ≢ session → journal_rows t other ≡ journal_rows s other
    pub ledger : (other : String) → other ≢ session → ledger_rows t other ≡ ledger_rows s other
    pub conversation :
        (other : String) → other ≢ session → get_messages t other ≡ get_messages s other

  journaled-Untouched : (s : Store) (r : Record) → Untouched s (journal_append s session r).0
  unfolding journal_append ledger_rows get_messages
  journaled-Untouched s r = record {
    approvals = refl;
    jobs = refl;
    sessions = refl;
    seals = refl;
    mailbox = refl;
    tokens = refl;
    seats = refl;
    teams = refl;
    journal = λ other ne. ground (arith, journal_rows-append s session other r);
    ledger = λ other ne. refl;
    conversation = λ other ne. refl;
  }

  ledgered-Untouched : (s : Store) (e : Event) → Untouched s (Ledger.append c s session e).0
  unfolding Ledger.append journal_rows get_messages
  ledgered-Untouched s e = record {
    approvals = refl;
    jobs = refl;
    sessions = refl;
    seals = refl;
    mailbox = refl;
    tokens = refl;
    seats = refl;
    teams = refl;
    journal = λ other ne. refl;
    ledger = λ other ne. ground (arith, ledger_rows-append c s session other e);
    conversation = λ other ne. refl;
  }

  said-Untouched :
      (s : Store) (role content : String) → Untouched s (add_message s session role content)
  unfolding add_message journal_rows ledger_rows
  said-Untouched s role content = record {
    approvals = refl;
    jobs = refl;
    sessions = refl;
    seals = refl;
    mailbox = refl;
    tokens = refl;
    seats = refl;
    teams = refl;
    journal = λ other ne. refl;
    ledger = λ other ne. refl;
    conversation = λ other ne. ground (arith, get_messages-add s session role content other);
  }

  results-Untouched :
      (s : Store) (rows : List ToolResultRow) → Untouched s (record s { tool_results = rows })
  unfolding journal_rows ledger_rows get_messages
  results-Untouched s rows = record {
    approvals = refl;
    jobs = refl;
    sessions = refl;
    seals = refl;
    mailbox = refl;
    tokens = refl;
    seats = refl;
    teams = refl;
    journal = λ other ne. refl;
    ledger = λ other ne. refl;
    conversation = λ other ne. refl;
  }

  Untouched-trans : (s t u : Store) → Untouched s t → Untouched t u → Untouched s u
  Untouched-trans s t u p q = record {
    approvals = q.approvals ∙ p.approvals;
    jobs = q.jobs ∙ p.jobs;
    sessions = q.sessions ∙ p.sessions;
    seals = q.seals ∙ p.seals;
    mailbox = q.mailbox ∙ p.mailbox;
    tokens = q.tokens ∙ p.tokens;
    seats = q.seats ∙ p.seats;
    teams = q.teams ∙ p.teams;
    journal = λ other ne. q.journal other ne ∙ p.journal other ne;
    ledger = λ other ne. q.ledger other ne ∙ p.ledger other ne;
    conversation = λ other ne. q.conversation other ne ∙ p.conversation other ne;
  }

  pub Evolves-Untouched : (s : Store) {t : Store} → Evolves c session s t → Untouched s t
  Evolves-Untouched s here = results-Untouched s s.tool_results
  Evolves-Untouched s (journaled {t = t} p r) =
      Untouched-trans s t _ (Evolves-Untouched s p) (journaled-Untouched t r)
  Evolves-Untouched s (ledgered {t = t} p e) =
      Untouched-trans s t _ (Evolves-Untouched s p) (ledgered-Untouched t e)
  Evolves-Untouched s (said {t = t} p role content) =
      Untouched-trans s t _ (Evolves-Untouched s p) (said-Untouched t role content)
  Evolves-Untouched s (persisted {t = t} p key tool result) =
      let (rows, e) = put_result t key session tool result in
      Untouched-trans s t _ (Evolves-Untouched s p)
        (subst (Untouched t) (sym e) (results-Untouched t rows))
