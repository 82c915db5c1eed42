-- ===== src/Ledger/Tamper.antt =====
-- What an accepted head commits to: two ledgers that `verify` accepts with one head and one count
-- hold the same events, or two different texts that the two checks hash have one SHA-256 digest.
use Prim.Native.String.{count}
use selfconnect_runtime.Base.{
  ℕ, ◌+◌, String, ◌<>◌, ◌≡◌, refl, sym, ◌∙◌, ◌≢◌, ◌⊎◌, inl, inr, true, Option, some, List, [], ◌∷◌,
  map, arith, contains, ==_refl, none, Option-cases, string_eq, length, order_by, ok,
}
use text.Mathlib.TextLemmas.{append_inj}
use selfconnect_runtime.State.{LedgerRow, Store}
use selfconnect_runtime.Ledger.{
  Codec, genesis, ledger_seq, ledger_rows, chain_hash, check_rows, check_seal, verify,
}
use selfconnect_runtime.Ledger.Chain.{ReadsBack}

-- The documented behaviour of `hexdigest`: 64 characters.
abbrev pub FixedSize : {Event : Type 0} → Codec Event → Type 0
FixedSize c = (x : String) → count (c.sha256 x) ≡ 64

-- The two texts differ and have one digest.
abbrev pub Collides : {Event : Type 0} → Codec Event → String → String → Type 0
Collides c x y = (x ≢ y) × (c.sha256 x ≡ c.sha256 y)

-- A text of the one list and a text of the other differ and have one digest.
abbrev pub Collision : {Event : Type 0} → Codec Event → List String → List String → Type 0
Collision c xs ys =
    (x : String) × (y : String) × (contains xs x ≡ true) × (contains ys y ≡ true) × Collides c x y

module _ {Event : Type 0} (c : Codec Event) where
  -- What the rows say, as `verify` reads them.
  abbrev pub events_of : List LedgerRow → List (Option Event)
  events_of rows = map (λ (r : LedgerRow). c.loads r.event) rows

  pub same_digest :
      (p q x y : String)
      → count p ≡ count q
      → c.sha256 (p <> x) ≡ c.sha256 (q <> y)
      → Collides c (p <> x) (q <> y) ⊎ ((p ≡ q) × (x ≡ y))
  same_digest p q x y size e = elim (string_eq.dec (p <> x) (q <> y)) [
    | yes same ↦ inr (append_inj same size)
    | no differ ↦ inl (differ, e)
  ]

  pub Collision-here :
      (x y : String) (xs ys : List String) → Collides c x y → Collision c (x ∷ xs) (y ∷ ys)
  Collision-here x y xs ys h = (x, y, ground (arith, ==_refl x), ground (arith, ==_refl y), h)

  pub Collision-later :
      (x y : String) (xs ys : List String) → Collision c xs ys → Collision c (x ∷ xs) (y ∷ ys)
  Collision-later x y xs ys (a, b, in_xs, in_ys, h) =
      (a, b, ground (arith, in_xs), ground (arith, in_ys), h)

  -- The texts that the loop of `verify` hashes
  unfoldable pub hashed_texts : String → List LedgerRow → List String
  hashed_texts prev [] = []
  hashed_texts prev (r ∷ rows) = elim (c.loads r.event) [
    | none ↦ []
    | some e ↦ (prev <> c.canonical e) ∷ hashed_texts (chain_hash c prev e) rows
  ]

  hashed_texts-read :
      (prev : String) (r : LedgerRow) (rows : List LedgerRow) (e : Event)
      → c.loads r.event ≡ some e
      → hashed_texts prev (r ∷ rows)
        ≡ (prev <> c.canonical e) ∷ hashed_texts (chain_hash c prev e) rows
  unfolding hashed_texts
  hashed_texts-read prev r rows e read = ground (arith, read)

  canonical-injective : ReadsBack c → (d e : Event) → c.canonical d ≡ c.canonical e → d ≡ e
  canonical-injective back d e h = ground (arith, back d, back e)

  check_rows-nil : (p : String) (n : ℕ) (h : String) → check_rows c p n [] ≡ ok h → p ≡ h
  unfolding check_rows
  check_rows-nil p n h k = ground arith

  -- The event and the rest of a row that the loop has passed.
  check_rows-cons :
      (prev : String) (n : ℕ) (r : LedgerRow) (rows : List LedgerRow) (h : String)
      → check_rows c prev n (r ∷ rows) ≡ ok h
      → (e : Event) × (c.loads r.event ≡ some e)
        × (check_rows c (chain_hash c prev e) (n + 1) rows ≡ ok h)
        × (r.seq ≡ n)
        × (r.hash ≡ chain_hash c prev e)
  unfolding check_rows
  check_rows-cons prev n r rows h k = elim (Option-cases (c.loads r.event)) [
    | inl unread ↦ absurd (ground arith)
    | inr (e, found) ↦ (e, found, ground arith, ground arith, ground arith)
  ]

  chains_agree :
      ReadsBack c
      → FixedSize c
      → (p q : String) (n m : ℕ) (rows rows' : List LedgerRow) (h : String) → count p ≡ count q
      → length rows ≡ length rows'
      → check_rows c p n rows ≡ ok h
      → check_rows c q m rows' ≡ ok h
      → Collision c (hashed_texts p rows) (hashed_texts q rows')
        ⊎ ((p ≡ q) × (events_of rows ≡ events_of rows'))
  unfolding chain_hash
  chains_agree back fixed p q n m [] [] h size len k l =
      inr (check_rows-nil p n h k ∙ sym (check_rows-nil q m h l), refl)
  chains_agree back fixed p q n m [] (r ∷ rows') h size len k l = absurd (omega arith)
  chains_agree back fixed p q n m (r ∷ rows) [] h size len k l = absurd (omega arith)
  chains_agree back fixed p q n m (r ∷ rows) (r' ∷ rows') h size len k l =
      let (d, read_d, k', _, _) = check_rows-cons p n r rows h k in
      let (e, read_e, l', _, _) = check_rows-cons q m r' rows' h l in
      rw (hashed_texts-read p r rows d read_d) (
        rw (hashed_texts-read q r' rows' e read_e)
          (elim (chains_agree back fixed (chain_hash c p d) (chain_hash c q e) (n + 1) (m + 1) rows
            rows' h (fixed _ ∙ sym (fixed _)) (omega arith) k' l') [
              | inl collide ↦ inl (Collision-later _ _ _ _ collide)
              | inr (heads, tails) ↦
                  elim (same_digest p q (c.canonical d) (c.canonical e) size heads) [
                    | inl collide ↦ inl (Collision-here _ _ _ _ collide)
                    | inr (starts, texts) ↦
                        inr (starts, ground (arith, canonical-injective back d e texts))
                  ]
            ]))

  -- The session's rows in the order in which `verify` reads them.
  abbrev pub ordered : Store → String → List LedgerRow
  ordered s session = order_by ledger_seq (ledger_rows s session)

  verify-passed :
      (s : Store) (session : String) (key : Option String)
      → (verify c s session key).is_ok ≡ true
      → (check_rows c genesis 1 (ordered s session) ≡ ok (verify c s session key).head)
        × ((verify c s session key).count ≡ length (ordered s session))
  unfolding verify check_seal
  verify-passed s session key h = ground arith

  -- If `verify` accepts a session in each of two stores, under whatever keys, with the same head and
  -- the same count, then both sessions hold the same events in the same order, or a text that the
  -- one check hashes and a text that the other hashes differ and have one SHA-256 digest.
  pub verify-commits :
      ReadsBack c
      → FixedSize c
      → (s t : Store) (session session' : String) (key key' : Option String)
      → (verify c s session key).is_ok ≡ true
      → (verify c t session' key').is_ok ≡ true
      → (verify c s session key).head ≡ (verify c t session' key').head
      → (verify c s session key).count ≡ (verify c t session' key').count
      → Collision c
          (hashed_texts genesis (ordered s session))
          (hashed_texts genesis (ordered t session'))
        ⊎ (events_of (ordered s session) ≡ events_of (ordered t session'))
  verify-commits back fixed s t session session' key key' a b heads counts =
      let (passed, size) = verify-passed s session key a in
      let (passed', size') = verify-passed t session' key' b in
      elim (chains_agree back fixed genesis genesis 1 1 (ordered s session) (ordered t session')
        (verify c t session' key').head refl (omega arith) (rw heads at passed) passed') [
          | inl collide ↦ inl collide
          | inr (starts, events) ↦ inr events
        ]
