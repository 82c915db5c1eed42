-- ===== src/Kernel/Preserves.antt =====
-- Properties of the world and of the approval records that a method of the kernel preserves.
use selfconnect_runtime.Base.{
  String, Bool, true, false, Option, none, some, List, [], ◌∷◌, ◌≡◌, refl, ap, ◌∙◌, if◌then◌else◌,
  string_eq, Result, ok, err,
}
use selfconnect_runtime.State.{Store, Record, ApprovalRow, journal_append, add_message}
use selfconnect_runtime.Ledger.{Codec}
use selfconnect_runtime.Ledger
use selfconnect_runtime.Kernel.Events.{Event}
use selfconnect_runtime.Kernel.Env.{Failure, Outcome, returned, raised}
use selfconnect_runtime.Kernel.Monad.{
  World, K, from_option, from_result, from_outcome, from_list, pure, reads, observes, calls, ◌>>=◌,
  journals, ledgers, messages, persists,
}
use selfconnect_runtime.Kernel.Effects.{put_result}

module _ {W : Type 0} (P : W → Type 0) (approvals : List ApprovalRow) where
  -- The world is in `P`, and the approval records are the given ones.
  pub record Inv (w : World W) : Type 0 where
    pub world : P w.world
    pub records : w.store.approvals ≡ approvals

  pub record Preserves {A : Type 0} (m : K W A) : Type 0 where
    pub at : (w : World W) → Inv w → Inv (m w).1

  pub Preserves-journals : (session : String) (r : Record) → Preserves (journals session r)
  unfolding journals journal_append
  Preserves-journals session r = record {
    at = λ w i. record { world = i.world; records = i.records };
  }

  pub Preserves-ledgers :
      (c : Codec Event) (session : String) (e : Event) → Preserves (ledgers c session e)
  unfolding ledgers Ledger.append
  Preserves-ledgers c session e = record {
    at = λ w i. record { world = i.world; records = i.records };
  }

  pub Preserves-messages :
      (session role content : String) → Preserves (messages session role content)
  unfolding messages add_message
  Preserves-messages session role content = record {
    at = λ w i. record { world = i.world; records = i.records };
  }

  pub Preserves-persists :
      (key session tool result : String) → Preserves (persists key session tool result)
  unfolding persists
  Preserves-persists key session tool result = record {
    at = λ w i. record {
      world = i.world;
      records =
          ap (λ (t : Store). t.approvals) (put_result w.store key session tool result).1
          ∙ i.records;
    };
  }

  module _ {A : Type 0} where
    pub Preserves-pure : (a : A) → Preserves (pure a)
    unfolding pure
    Preserves-pure a = record { at = λ w i. i }

    pub Preserves-reads : (f : Store → A) → Preserves (reads f)
    unfolding reads
    Preserves-reads f = record { at = λ w i. i }

    pub Preserves-observes : (f : W → A) → Preserves (observes f)
    unfolding observes
    Preserves-observes f = record { at = λ w i. i }

    pub Preserves-calls : (f : W → A × W) → ((w : W) → P w → P (f w).1) → Preserves (calls f)
    unfolding calls
    Preserves-calls f p = record {
      at = λ w i. record { world = p w.world i.world; records = i.records };
    }

    pub Preserves-if :
        (b : Bool) (m n : K W A)
        → (b ≡ true → Preserves m)
        → (b ≡ false → Preserves n)
        → Preserves (if b then m else n)
    Preserves-if true m n p q = p refl
    Preserves-if false m n p q = q refl

  module _ {A X : Type 0} where
    pub Preserves-from_option :
        (o : Option X) (n : K W A) (f : X → K W A)
        → Preserves n
        → ((x : X) → o ≡ some x → Preserves (f x))
        → Preserves (from_option o n f)
    Preserves-from_option none n f p q = p
    Preserves-from_option (some x) n f p q = q x refl

  module _ {A X E : Type 0} where
    pub Preserves-from_result :
        (r : Result E X) (n : E → K W A) (f : X → K W A)
        → ((e : E) → Preserves (n e))
        → ((x : X) → r ≡ ok x → Preserves (f x))
        → Preserves (from_result r n f)
    Preserves-from_result (err e) n f p q = p e
    Preserves-from_result (ok x) n f p q = q x refl

  module _ {A X : Type 0} where
    pub Preserves-from_outcome :
        (o : Outcome X) (n : Failure → K W A) (f : X → K W A)
        → ((e : Failure) → Preserves (n e))
        → ((x : X) → Preserves (f x))
        → Preserves (from_outcome o n f)
    Preserves-from_outcome (raised e) n f p q = p e
    Preserves-from_outcome (returned x) n f p q = q x

    pub Preserves-from_list :
        (xs : List X) (n : K W A) (f : X → List X → K W A)
        → Preserves n
        → ((x : X) (rest : List X) → Preserves (f x rest))
        → Preserves (from_list xs n f)
    Preserves-from_list [] n f p q = p
    Preserves-from_list (x ∷ rest) n f p q = q x rest

  module _ {A B : Type 0} where
    pub Preserves-bind :
        (m : K W A) (f : A → K W B)
        → Preserves m
        → ((a : A) → Preserves (f a))
        → Preserves (m >>= f)
    unfolding ◌>>=◌
    Preserves-bind m f p q = record { at = λ w i. let (a, w') = m w in (q a).at w' (p.at w i) }

    -- After a read, the value is known to come from a store that holds the given approval records.
    pub Preserves-reads_bind :
        (g : Store → A) (f : A → K W B)
        → ((s : Store) → s.approvals ≡ approvals → Preserves (f (g s)))
        → Preserves (reads g >>= f)
    unfolding ◌>>=◌ reads
    Preserves-reads_bind g f q = record { at = λ w i. (q w.store i.records).at w i }

pub ruleset preserves_rules = (
  Preserves-journals, Preserves-ledgers, Preserves-messages, Preserves-persists, Preserves-pure,
  Preserves-reads, Preserves-observes, Preserves-if, Preserves-bind, Preserves-from_option,
  Preserves-from_result, Preserves-from_outcome, Preserves-from_list,
)
