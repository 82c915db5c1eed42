-- ===== src/Evidence/Tampering.antt =====
-- scr/_evidence_verifier.py: what a verified bundle commits to, and where the ledger's own check differs.
use selfconnect_runtime.Base.{
  ℕ, ◌+◌, String, ◌<>◌, ◌≡◌, refl, sym, ◌∙◌, ◌≢◌, ◌⊎◌, inl, inr, true, false, some, List, [], ◌∷◌,
  map, arith, string_eq, length,
}
use Prim.Native.String.{count}
use selfconnect_runtime.State.{LedgerRow}
use selfconnect_runtime.Ledger.{Codec, genesis, chain_hash, check_rows}
use selfconnect_runtime.Ledger.Tamper.{
  Collides, Collision, Collision-here, Collision-later, FixedSize, same_digest,
}
use selfconnect_runtime.Evidence.Verifier.{
  EvidenceRow, Documents, SessionBundle, text_hash, recompute_from, recompute_chain,
  verify_session_bundle,
}
use selfconnect_runtime.Evidence.Bundles.{evidence_row}
use selfconnect_runtime.Evidence.Chains.{passes}

module _ {Event Doc : Type 0} (c : Codec Event) (d : Documents Doc) where
  abbrev pub texts_of : List EvidenceRow → List String
  texts_of rows = map (λ (r : EvidenceRow). r.event) rows

  -- A chain that passed: where it ends, and what a row that passed has.
  recompute_from-cons :
      (total : ℕ) (prev : String) (n : ℕ) (r : EvidenceRow) (rows : List EvidenceRow)
      → (recompute_from c d total prev n (r ∷ rows)).is_ok ≡ true
      → ((recompute_from c d total (text_hash c d prev r.event) (n + 1) rows).is_ok ≡ true)
        × ((recompute_from c d total prev n (r ∷ rows)).head
            ≡ (recompute_from c d total (text_hash c d prev r.event) (n + 1) rows).head)
  unfolding recompute_from
  recompute_from-cons total prev n r rows h = (ground (arith, h), ground (arith, h))

  recompute_from-count :
      (total : ℕ) (prev : String) (n : ℕ) (rows : List EvidenceRow)
      → (recompute_from c d total prev n rows).is_ok ≡ true
      → (recompute_from c d total prev n rows).count ≡ total
  unfolding recompute_from
  recompute_from-count total prev n [] h = refl
  recompute_from-count total prev n (r ∷ rows) h =
      ground (arith, h, recompute_from-count total (text_hash c d prev r.event) (n + 1) rows)

  -- The texts that the loop of `recompute_chain` hashes
  unfoldable pub hashed_rows : String → List EvidenceRow → List String
  unfolding text_hash
  hashed_rows prev [] = []
  hashed_rows prev (r ∷ rows) = (prev <> r.event) ∷ hashed_rows (text_hash c d prev r.event) rows

  texts_agree :
      FixedSize c
      → (total total' : ℕ) (p q : String) (n m : ℕ) (rows rows' : List EvidenceRow)
      → count p ≡ count q
      → length rows ≡ length rows'
      → (recompute_from c d total p n rows).is_ok ≡ true
      → (recompute_from c d total' q m rows').is_ok ≡ true
      → (recompute_from c d total p n rows).head ≡ (recompute_from c d total' q m rows').head
      → Collision c (hashed_rows p rows) (hashed_rows q rows')
        ⊎ ((p ≡ q) × (texts_of rows ≡ texts_of rows'))
  unfolding recompute_from text_hash hashed_rows
  texts_agree fixed total total' p q n m [] [] size len a b e = inr (e, refl)
  texts_agree fixed total total' p q n m [] (r ∷ rows') size len a b e = absurd (omega arith)
  texts_agree fixed total total' p q n m (r ∷ rows) [] size len a b e = absurd (omega arith)
  texts_agree fixed total total' p q n m (r ∷ rows) (r' ∷ rows') size len a b e =
      let (a', ha) = recompute_from-cons total p n r rows a in
      let (b', hb) = recompute_from-cons total' q m r' rows' b in
      elim (texts_agree fixed total total' (text_hash c d p r.event) (text_hash c d q r'.event)
        (n + 1) (m + 1) rows rows' (fixed _ ∙ sym (fixed _)) (omega arith) a' b'
        (sym ha ∙ e ∙ hb)) [
          | inl collide ↦ inl (Collision-later c _ _ _ _ collide)
          | inr (heads, tails) ↦ elim (same_digest c p q r.event r'.event size heads) [
            | inl collide ↦ inl (Collision-here c _ _ _ _ collide)
            | inr (starts, texts) ↦ inr (starts, ground (arith, texts, tails))
          ]
        ]

  recompute_chain-count :
      (rows : List EvidenceRow)
      → (recompute_chain c d rows).is_ok ≡ true
      → (recompute_chain c d rows).count ≡ length rows
  unfolding recompute_chain
  recompute_chain-count rows h = recompute_from-count (length rows) genesis 1 rows h

  verify_session_bundle-chain :
      (b : SessionBundle) (mac key : String)
      → (verify_session_bundle c d b mac key).is_ok ≡ true
      → (recompute_chain c d b.events).is_ok ≡ true
  unfolding verify_session_bundle
  verify_session_bundle-chain b mac key h = ground (arith, h)

  -- Two session bundles that pass the offline verifier, under whatever keys and seals, with the same
  -- head and the same count hold the same texts of events in the same order, or a text that the
  -- one check hashes and a text that the other hashes differ and have one SHA-256 digest.
  pub verify_session_bundle-commits :
      FixedSize c
      → (b b' : SessionBundle) (mac mac' key key' : String)
      → (verify_session_bundle c d b mac key).is_ok ≡ true
      → (verify_session_bundle c d b' mac' key').is_ok ≡ true
      → (recompute_chain c d b.events).head ≡ (recompute_chain c d b'.events).head
      → (recompute_chain c d b.events).count ≡ (recompute_chain c d b'.events).count
      → Collision c (hashed_rows genesis b.events) (hashed_rows genesis b'.events)
        ⊎ (texts_of b.events ≡ texts_of b'.events)
  verify_session_bundle-commits fixed b b' mac mac' key key' good good' heads counts =
      let passed = verify_session_bundle-chain b mac key good in
      let passed' = verify_session_bundle-chain b' mac' key' good' in
      let sizes = recompute_chain-count b.events passed in
      let sizes' = recompute_chain-count b'.events passed' in
      elim (texts_agree fixed (length b.events) (length b'.events) genesis genesis 1 1 b.events
        b'.events refl (omega (arith, sizes, sizes', counts)) (unfold recompute_chain in passed)
        (unfold recompute_chain in passed') (unfold recompute_chain in heads)) [
          | inl collide ↦ inl collide
          | inr (starts, texts) ↦ inr texts
        ]

  -- A row whose text reads as an event but is not the text that the event is written as, under the
  -- hash of the event: the ledger's own loop passes it, and the offline verifier does not, or the
  -- two texts that they hash differ and have one SHA-256 digest.
  pub recompute_chain-stricter :
      (r : LedgerRow) (e : Event)
      → c.loads r.event ≡ some e
      → r.event ≢ c.canonical e
      → r.seq ≡ 1
      → r.hash ≡ chain_hash c genesis e
      → (passes c d (check_rows c genesis 1 (r ∷ [])) ≡ true)
        × (Collides c (genesis <> r.event) (genesis <> c.canonical e)
            ⊎ ((recompute_chain c d (evidence_row r ∷ [])).is_ok ≡ false))
  unfolding check_rows recompute_chain recompute_from text_hash chain_hash
  recompute_chain-stricter r e read differ first hash = (
    ground (arith, read, first, hash),
    elim (string_eq.dec (c.sha256 (genesis <> r.event)) (c.sha256 (genesis <> c.canonical e))) [
      | no apart ↦ inr (ground (arith, apart, first, hash))
      | yes same ↦ elim (same_digest c genesis genesis r.event (c.canonical e) refl same) [
        | inl collide ↦ inl collide
        | inr (_, texts) ↦ absurd (differ texts)
      ]
    ],
  )
