-- ===== src/Evidence/RoundTrip.antt =====
-- scr/evidence.py: the export of a team, as the offline verifier reads it.
use selfconnect_runtime.Base.{
  ℕ, String, ◌≡◌, refl, sym, ap, ◌∙◌, subst, ◌≢◌, inl, inr, true, Option, none, some, List, [], ◌∷◌,
  map, arith, string_eq, All, lookup-insert, ok, Result-cases,
}
use selfconnect_runtime.Gateway.{Json}
use selfconnect_runtime.State.{Store, TeamRow, team_members}
use selfconnect_runtime.Ledger
use selfconnect_runtime.Ledger.{Codec, ledger_rows, ledger_seq, head, seal_of, seal_mac, genesis}
use selfconnect_runtime.Ledger.Chain.{IsChained}
use selfconnect_runtime.Ledger.Sealed.{head-seal, seal_of-lookup, seal_row}
use selfconnect_runtime.Kernel.Events.{Event}
use selfconnect_runtime.Evidence.Verifier.{
  TeamBundle, of_team, Documents, bundle_check, member_report, all_members_ok, verify_team_bundle,
  verify_bundle_obj,
}
use selfconnect_runtime.Evidence.Bundles.{
  lead_package, Archive, archive_of, verify_bundle, member_evidence, seal_members,
  export_team_bundle, build_team_bundle, team_bundle,
}
use selfconnect_runtime.Evidence.Exports.{
  IsFaithful, SealedBy, chain_of-session, seal-IsChained, seal_check-own, verify_bundle-archive,
  seal-SealedBy_self,
}

module _ {Doc : Type 0} (c : Codec Event) (d : Documents Doc) (version : String) where
  seal_of-other :
      (s : Store) (session other key : String)
      → session ≢ other
      → seal_of (Ledger.seal c s session key).0 other ≡ seal_of s other
  unfolding Ledger.seal
  seal_of-other s session other key differ =
      seal_of-lookup (Ledger.seal c s session key).0 other
      ∙ lookup-insert session other _ s.seals
      ∙ ground (arith, differ, seal_of-lookup s other)

  -- Sealing one session leaves another sealed.
  seal-SealedBy :
      (s : Store) (session other key : String)
      → SealedBy c d version key s other
      → SealedBy c d version key (Ledger.seal c s session key).0 other
  seal-SealedBy s session other key h = elim (string_eq.dec session other) [
    | yes same ↦
        subst (SealedBy c d version key (Ledger.seal c s session key).0) same
          (seal-SealedBy_self c d version s session key)
    | no differ ↦
        seal_of-other s session other key differ
        ∙ h
        ∙ ap (λ (p : String × ℕ). some (seal_row c key p.1 p.0))
            (sym (head-seal c s session key other))
  ]

  seal_members-SealedBy :
      (members : List TeamRow) (s : Store) (session key : String)
      → SealedBy c d version key s session
      → SealedBy c d version key (seal_members c d version key members s) session
  unfolding seal_members
  seal_members-SealedBy [] s session key h = h
  seal_members-SealedBy (m ∷ members) s session key h =
      seal_members-SealedBy members (Ledger.seal c s m.session_id key).0 session key
        (seal-SealedBy s m.session_id session key h)

  AllSealed : String → Store → List TeamRow → Type 0
  AllSealed key s = All (λ (m : TeamRow). SealedBy c d version key s m.session_id)

  seal_members-AllSealed :
      (members : List TeamRow) (s : Store) (key : String)
      → AllSealed key (seal_members c d version key members s) members
  unfolding seal_members AllSealed
  seal_members-AllSealed [] s key = tt
  seal_members-AllSealed (m ∷ members) s key = (
    seal_members-SealedBy members (Ledger.seal c s m.session_id key).0 m.session_id key
        (seal-SealedBy_self c d version s m.session_id key),
    seal_members-AllSealed members (Ledger.seal c s m.session_id key).0 key,
  )

  seal_members-IsChained :
      (members : List TeamRow) (s : Store) (key : String)
      → IsChained c s
      → IsChained c (seal_members c d version key members s)
  unfolding seal_members
  seal_members-IsChained [] s key h = h
  seal_members-IsChained (m ∷ members) s key h =
      seal_members-IsChained members (Ledger.seal c s m.session_id key).0 key
        (seal-IsChained c d version s m.session_id key h)

  all_members_ok-sealed :
      (members : List TeamRow) (s : Store) (key : String)
      → IsChained c s
      → AllSealed key s members
      → all_members_ok c d
          (map (member_report c d key) (map (member_evidence c d version s) members))
        ≡ true
  unfolding all_members_ok member_report member_evidence AllSealed
  all_members_ok-sealed [] s key h sealed = refl
  all_members_ok-sealed (m ∷ members) s key h sealed = ground (
    arith,
    chain_of-session c d version s m.session_id h,
    seal_check-own c d version s m.session_id key sealed.0,
    all_members_ok-sealed members s key h sealed.1,
  )

  team_members-sealed :
      (members : List TeamRow) (s : Store) (key team_id : String)
      → team_members (seal_members c d version key members s) team_id ≡ team_members s team_id
  unfolding seal_members team_members Ledger.seal
  team_members-sealed [] s key team_id = refl
  team_members-sealed (m ∷ members) s key team_id =
      team_members-sealed members (Ledger.seal c s m.session_id key).0 key team_id

  build_team_bundle-ok :
      (s : Store) (team_id : String) (pkg : Option Json) (b : TeamBundle)
      → build_team_bundle c d version s team_id pkg ≡ ok b
      → (p : Option Json) × (b ≡ team_bundle c d version s team_id (team_members s team_id) p)
  unfolding build_team_bundle
  build_team_bundle-ok s team_id (some pkg) b h = (some pkg, ground (arith, h))
  build_team_bundle-ok s team_id none b h =
      elim (Result-cases (lead_package c s (team_members s team_id))) [
        | inl (p, found) ↦ (p, ground (arith, h, found))
        | inr (e, failed) ↦ ground (arith, h, failed)
      ]

  verify_team_bundle-sealed :
      (s : Store) (team_id key : String) (members : List TeamRow) (pkg : Option Json)
      → IsChained c s
      → AllSealed key s members
      → let b = team_bundle c d version s team_id members pkg in
        verify_bundle_obj c d (of_team b) (d.hmac_sha256 key (d.dumps (of_team b))) key ≡ true
  unfolding verify_bundle_obj verify_team_bundle bundle_check
  verify_team_bundle-sealed s team_id key members pkg h sealed =
      ground (arith, all_members_ok-sealed members s key h sealed)

  -- In a chained store, whatever sessions belong to a team, an archive that `export_team_bundle` makes
  -- passes the offline verifier under the key of the export.
  pub verify_bundle-export_team :
      IsFaithful d
      → (s : Store) (team_id key : String) (pkg : Option Json) (a : Archive Doc) → IsChained c s
      → (export_team_bundle c d version s team_id key pkg).1 ≡ ok a
      → verify_bundle c d version a key ≡ ok true
  unfolding export_team_bundle
  verify_bundle-export_team faithful s team_id key pkg a h made =
      let t = seal_members c d version key (team_members s team_id) s in
      elim (Result-cases (build_team_bundle c d version t team_id pkg)) [
        | inr (e, failed) ↦ ground (arith, made, failed)
        | inl (b, built) ↦
            let (p, e) = build_team_bundle-ok t team_id pkg b built in
            let made' : a ≡ archive_of c d version key (of_team b) = ground (arith, made, built) in
            rw made' (
              verify_bundle-archive c d version faithful (of_team b) key
              ∙ rw (e, team_members-sealed (team_members s team_id) s key team_id)
                  (ap ok (
                    verify_team_bundle-sealed t team_id key (team_members s team_id) p
                      (seal_members-IsChained (team_members s team_id) s key h)
                      (seal_members-AllSealed (team_members s team_id) s key))))
      ]
