-- ===== src/Evidence/Bundles.antt =====
-- scr/evidence.py: what is exported, and the verification of an exported file. An archive is the members
-- `bundle.json` and `bundle.hmac`; its other two members are constant texts.
use selfconnect_runtime.Base.{
  String, Bool, Option, none, some, List, [], ◌∷◌, map, eqb, if◌then◌else◌, string_eq, order_by,
  Result, ok, err, ◌>>=◌,
}
use selfconnect_runtime.Gateway.{Json, object, end}
use selfconnect_runtime.State.{Store, LedgerRow, Seal, TeamRow, team_members}
use selfconnect_runtime.Ledger
use selfconnect_runtime.Ledger.{Codec, ledger_rows, ledger_seq, seal_of}
use selfconnect_runtime.Kernel.Events.{Event, provenance}
use selfconnect_runtime.Evidence.Verifier.{
  EvidenceRow, SealField, SessionBundle, TreeEntry, MemberEvidence, TeamBundle, Bundle, of_session,
  of_team, Documents, verify_bundle_obj,
}

pub record Archive (Doc : Type 0) : Type 0 where
  pub bundle : Doc
  pub hmac : String

-- The exceptions of an export and of a verification.
pub data EvidenceError : Type 0 where
  bad_event : EvidenceError
  bad_bundle : EvidenceError

abbrev pub evidence_row : LedgerRow → EvidenceRow
evidence_row r = record { seq = some r.seq; event = r.event; hash = some r.hash }

-- `_read_session_events`
unfoldable pub read_session_events : Store → String → List EvidenceRow
unfolding ledger_rows
read_session_events s session = map evidence_row (order_by ledger_seq (ledger_rows s session))

abbrev pub seal_field : Option Seal → Option SealField
seal_field none = none
seal_field (some r) = some (record { head = some r.head; count = some r.count; hmac = some r.hmac })

-- `_read_seal(...) or {}`
unfoldable pub read_seal : Store → String → Option SealField
unfolding seal_of
read_seal s session = seal_field (seal_of s session)

-- `package or {}`
abbrev pub or_empty : Option Json → Json
or_empty none = object end
or_empty (some pkg) = pkg

-- The `package` of a ledgered provenance event among the texts, or the JSONDecodeError of a text.
unfoldable pub find_provenance : Codec Event → List LedgerRow → Result EvidenceError (Option Json)
find_provenance c [] = ok none
find_provenance c (r ∷ rows) =
    let later = find_provenance c rows in
    elim (c.loads r.event) [
      | none ↦ err bad_event
      | some e ↦ elim e [ provenance pkg ↦ ok (some (object pkg)) | _ ↦ later ]
    ]

-- The loop over the members for the first one of depth 0.
unfoldable pub lead_package :
    Codec Event → Store → List TeamRow → Result EvidenceError (Option Json)
unfolding find_provenance ledger_rows
lead_package c s [] = ok none
lead_package c s (m ∷ members) =
    let later = lead_package c s members in
    if eqb m.depth 0
    then find_provenance c (order_by ledger_seq (ledger_rows s m.session_id))
    else later

module _ {Doc : Type 0} (c : Codec Event) (d : Documents Doc) (version : String) where
  unfoldable pub build_bundle : Store → String → Option Json → SessionBundle
  unfolding read_session_events read_seal
  build_bundle s session pkg = record {
    runtime_version = version;
    pkg = or_empty pkg;
    session_id = session;
    events = read_session_events s session;
    seal = read_seal s session;
  }

  abbrev pub archive_of : String → Bundle → Archive Doc
  archive_of key bundle = record {
    bundle = d.dumps bundle;
    hmac = d.hmac_sha256 key (d.dumps bundle);
  }

  unfoldable pub export_bundle : Store → String → String → Option Json → Archive Doc
  unfolding build_bundle
  export_bundle s session key pkg = archive_of key (of_session (build_bundle s session pkg))

  unfoldable pub member_evidence : Store → TeamRow → MemberEvidence
  unfolding read_session_events read_seal
  member_evidence s m = record {
    session_id = m.session_id;
    agent = m.agent;
    events = read_session_events s m.session_id;
    seal = read_seal s m.session_id;
  }

  abbrev pub tree_entry : TeamRow → TreeEntry
  tree_entry m = record {
    agent = m.agent;
    session_id = m.session_id;
    parent_session = m.parent_session;
    depth = m.depth;
  }

  abbrev pub team_bundle : Store → String → List TeamRow → Option Json → TeamBundle
  team_bundle s team_id members pkg = record {
    runtime_version = version;
    pkg = or_empty pkg;
    team_id = team_id;
    delegation_tree = map tree_entry members;
    sessions = map (member_evidence s) members;
  }

  unfoldable pub build_team_bundle : Store → String → Option Json → Result EvidenceError TeamBundle
  unfolding team_members member_evidence lead_package
  build_team_bundle s team_id (some pkg) =
      ok (team_bundle s team_id (team_members s team_id) (some pkg))
  build_team_bundle s team_id none = do
    pkg ← lead_package c s (team_members s team_id)
    ok (team_bundle s team_id (team_members s team_id) pkg)

  -- `seal_on_close` for each member
  unfoldable pub seal_members : String → List TeamRow → Store → Store
  unfolding Ledger.seal
  seal_members key [] s = s
  seal_members key (m ∷ members) s = seal_members key members (Ledger.seal c s m.session_id key).0

  -- The store with the seals, and the archive.
  unfoldable pub export_team_bundle :
      Store → String → String → Option Json → Store × Result EvidenceError (Archive Doc)
  unfolding seal_members build_team_bundle team_members
  export_team_bundle s team_id key pkg =
      let t = seal_members key (team_members s team_id) s in
      (t, build_team_bundle t team_id pkg >>= λ b. ok (archive_of key (of_team b)))

  -- `verify_bundle`, by the verdict of its report
  unfoldable pub verify_bundle : Archive Doc → String → Result EvidenceError Bool
  unfolding verify_bundle_obj
  verify_bundle a key = elim (d.loads a.bundle) [
    | none ↦ err bad_bundle
    | some bundle ↦ ok (verify_bundle_obj c d bundle (d.strip a.hmac) key)
  ]
