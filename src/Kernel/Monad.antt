-- ===== src/Kernel/Monad.antt =====
-- The kernel's methods act on the store and the world. Each step is one operation of the store, one
-- ledger entry, or one call of the outside.
use selfconnect_runtime.Base.{
  ℕ, String, Option, none, some, List, [], ◌∷◌, string_eq, Result, ok, err,
}
use selfconnect_runtime.State.{Store, Record}
use selfconnect_runtime.State
use selfconnect_runtime.Ledger
use selfconnect_runtime.Ledger.{Codec}
use selfconnect_runtime.Kernel.Events.{Event}
use selfconnect_runtime.Kernel.Env.{Failure, Outcome, returned, raised}

-- The branches on `is None`, on a raised exception and on an empty list, as functions that wait.
abbrev pub from_option : {A B : Type 0} → Option A → B → (A → B) → B
from_option none n f = n
from_option (some a) n f = f a

abbrev pub from_result : {E A B : Type 0} → Result E A → (E → B) → (A → B) → B
from_result (err e) n f = n e
from_result (ok a) n f = f a

abbrev pub from_outcome : {A B : Type 0} → Outcome A → (Failure → B) → (A → B) → B
from_outcome (raised e) n f = n e
from_outcome (returned a) n f = f a

abbrev pub from_list : {A B : Type 0} → List A → B → (A → List A → B) → B
from_list [] n f = n
from_list (a ∷ rest) n f = f a rest

pub record World (W : Type 0) : Type 0 where
  pub store : Store
  pub world : W

abbrev pub K : Type 0 → Type 0 → Type 0
K W A = World W → A × World W

module _ {W A : Type 0} where
  unfoldable pub pure : A → K W A
  pure a w = (a, w)

  -- Read the store.
  unfoldable pub reads : (Store → A) → K W A
  reads f w = (f w.store, w)

  -- Read the world.
  unfoldable pub observes : (W → A) → K W A
  observes f w = (f w.world, w)

  -- A call of the outside, which may change the world and never the store.
  unfoldable pub calls : (W → A × W) → K W A
  calls f w = let (a, world) = f w.world in (a, record w { world = world })

module _ {W A B : Type 0} where
  infixl 5 ◌>>=◌ ◌>>◌
  unfoldable pub ◌>>=◌ : K W A → (A → K W B) → K W B
  ◌>>=◌ m f w = let (a, w') = m w in f a w'

  abbrev pub ◌>>◌ : K W A → K W B → K W B
  m >> n = m >>= λ _. n

module _ {W : Type 0} where
  unfoldable pub journals : String → Record → K W ℕ
  journals session r w =
      let (s, seq) = State.journal_append w.store session r in (seq, record w { store = s })

  unfoldable pub ledgers : Codec Event → String → Event → K W (Unit {0})
  ledgers c session e w = (tt, record w { store = (Ledger.append c w.store session e).0 })

  unfoldable pub messages : String → String → String → K W (Unit {0})
  messages session role content w =
      (tt, record w { store = State.add_message w.store session role content })

  unfoldable pub persists : String → String → String → String → K W (Unit {0})
  persists key session tool result w =
      (tt, record w { store = State.tool_result_put w.store key session tool result })
