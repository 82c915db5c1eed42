-- ===== src/Kernel/Evolution.antt =====
-- What the kernel can do to a store while it works for one session: it appends to that session's
-- journal, ledger and messages, and it adds results under idempotency keys. Nothing else.
use selfconnect_runtime.Base.{
  String, Bool, true, false, Option, none, some, List, [], ◌∷◌, if◌then◌else◌, string_eq, Result,
  ok, err,
}
use selfconnect_runtime.State.{Store, Record, journal_append, add_message, tool_result_put}
use selfconnect_runtime.Ledger.{Codec}
use selfconnect_runtime.Ledger
use selfconnect_runtime.Kernel.Events.{Event}
use selfconnect_runtime.Kernel.Env.{Failure, Outcome, returned, raised}
use selfconnect_runtime.Kernel.Monad.{
  World, K, from_option, from_result, from_outcome, from_list, pure, reads, observes, calls, ◌>>=◌,
  journals, ledgers, messages, persists,
}

module _ (c : Codec Event) (session : String) where
  pub data Evolves (s : Store) : Store → Type 0 where
    here : Evolves s s
    journaled : {t : Store} → Evolves s t → (r : Record) → Evolves s (journal_append t session r).0
    ledgered : {t : Store} → Evolves s t → (e : Event) → Evolves s (Ledger.append c t session e).0
    said :
        {t : Store}
        → Evolves s t
        → (role content : String) → Evolves s (add_message t session role content)
    persisted :
        {t : Store}
        → Evolves s t
        → (key tool result : String) → Evolves s (tool_result_put t key session tool result)

  pub Evolves-trans : {s t u : Store} → Evolves s t → Evolves t u → Evolves s u
  Evolves-trans p here = p
  Evolves-trans p (journaled q r) = journaled (Evolves-trans p q) r
  Evolves-trans p (ledgered q e) = ledgered (Evolves-trans p q) e
  Evolves-trans p (said q role content) = said (Evolves-trans p q) role content
  Evolves-trans p (persisted q key tool result) = persisted (Evolves-trans p q) key tool result

  -- The action only lets the store evolve.
  pub record Runs {W A : Type 0} (m : K W A) : Type 0 where
    pub at : (w : World W) → Evolves w.store (m w).1.store

  module _ {W : Type 0} where
    pub Runs-journals : (r : Record) → Runs {W = W} (journals session r)
    unfolding journals
    Runs-journals r = record { at = λ w. journaled here r }

    pub Runs-ledgers : (e : Event) → Runs {W = W} (ledgers c session e)
    unfolding ledgers
    Runs-ledgers e = record { at = λ w. ledgered here e }

    pub Runs-messages : (role content : String) → Runs {W = W} (messages session role content)
    unfolding messages
    Runs-messages role content = record { at = λ w. said here role content }

    pub Runs-persists : (key tool result : String) → Runs {W = W} (persists key session tool result)
    unfolding persists
    Runs-persists key tool result = record { at = λ w. persisted here key tool result }

  module _ {W A : Type 0} where
    pub Runs-pure : (a : A) → Runs {W = W} (pure a)
    unfolding pure
    Runs-pure a = record { at = λ w. here }

    pub Runs-reads : (f : Store → A) → Runs {W = W} (reads f)
    unfolding reads
    Runs-reads f = record { at = λ w. here }

    pub Runs-observes : (f : W → A) → Runs (observes f)
    unfolding observes
    Runs-observes f = record { at = λ w. here }

    pub Runs-calls : (f : W → A × W) → Runs (calls f)
    unfolding calls
    Runs-calls f = record { at = λ w. here }

    pub Runs-if : (b : Bool) (m n : K W A) → Runs m → Runs n → Runs (if b then m else n)
    Runs-if true m n p q = p
    Runs-if false m n p q = q

  module _ {W A X : Type 0} where
    pub Runs-from_option :
        (o : Option X) (n : K W A) (f : X → K W A)
        → Runs n
        → ((x : X) → Runs (f x))
        → Runs (from_option o n f)
    Runs-from_option none n f p q = p
    Runs-from_option (some x) n f p q = q x

  module _ {W A X E : Type 0} where
    pub Runs-from_result :
        (r : Result E X) (n : E → K W A) (f : X → K W A)
        → ((e : E) → Runs (n e))
        → ((x : X) → Runs (f x))
        → Runs (from_result r n f)
    Runs-from_result (err e) n f p q = p e
    Runs-from_result (ok x) n f p q = q x

  module _ {W A X : Type 0} where
    pub Runs-from_outcome :
        (o : Outcome X) (n : Failure → K W A) (f : X → K W A)
        → ((e : Failure) → Runs (n e))
        → ((x : X) → Runs (f x))
        → Runs (from_outcome o n f)
    Runs-from_outcome (raised e) n f p q = p e
    Runs-from_outcome (returned x) n f p q = q x

    pub Runs-from_list :
        (xs : List X) (n : K W A) (f : X → List X → K W A)
        → Runs n
        → ((x : X) (rest : List X) → Runs (f x rest))
        → Runs (from_list xs n f)
    Runs-from_list [] n f p q = p
    Runs-from_list (x ∷ rest) n f p q = q x rest

  module _ {W A B : Type 0} where
    pub Runs-bind : (m : K W A) (f : A → K W B) → Runs m → ((a : A) → Runs (f a)) → Runs (m >>= f)
    unfolding ◌>>=◌
    Runs-bind m f p q = record {
      at = λ w. let (a, w') = m w in Evolves-trans (p.at w) ((q a).at w');
    }

pub ruleset runs_rules = (
  Runs-journals, Runs-ledgers, Runs-messages, Runs-persists, Runs-pure, Runs-reads, Runs-observes,
  Runs-calls, Runs-if, Runs-bind, Runs-from_option, Runs-from_result, Runs-from_outcome,
  Runs-from_list,
)
