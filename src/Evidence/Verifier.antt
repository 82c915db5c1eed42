-- ===== src/Evidence/Verifier.antt =====
-- scr/_evidence_verifier.py: the standalone verifier. A bundle has the keys that `build_bundle` and
-- `build_team_bundle` write; a key that the verifier reads by `get` may be missing.
use selfconnect_runtime.Base.{
  ℕ, ◌+◌, ◌-◌, String, ◌<>◌, Bool, true, false, not, ◌&&◌, Option, none, some, List, [], ◌∷◌, map,
  eqb, if◌then◌else◌, string_eq, ◌==◌, length,
}
use selfconnect_runtime.Gateway.{Json}
use selfconnect_runtime.Ledger.{Codec, genesis}

pub record EvidenceRow : Type 0 where
  pub seq : Option ℕ
  pub event : String
  pub hash : Option String

pub record SealField : Type 0 where
  pub head : Option String
  pub count : Option ℕ
  pub hmac : Option String

-- A bundle of one session. `seal` is `none` for the empty dict of a session that is not sealed.
pub record SessionBundle : Type 0 where
  pub runtime_version : String
  pub pkg : Json
  pub session_id : String
  pub events : List EvidenceRow
  pub seal : Option SealField

pub record TreeEntry : Type 0 where
  pub agent : String
  pub session_id : String
  pub parent_session : Option String
  pub depth : ℕ

pub record MemberEvidence : Type 0 where
  pub session_id : String
  pub agent : String
  pub events : List EvidenceRow
  pub seal : Option SealField

pub record TeamBundle : Type 0 where
  pub runtime_version : String
  pub pkg : Json
  pub team_id : String
  pub delegation_tree : List TreeEntry
  pub sessions : List MemberEvidence

-- `"sessions" in bundle` tells them apart.
pub data Bundle : Type 0 where
  of_session : SessionBundle → Bundle
  of_team : TeamBundle → Bundle

pub data RowError : Type 0 where
  gap : (expected : ℕ) (found : Option ℕ) → RowError
  broken : (seq : Option ℕ) → RowError

pub record ChainReport : Type 0 where
  pub is_ok : Bool
  pub head : String
  pub count : ℕ
  pub error : Option RowError

pub record SessionReport : Type 0 where
  pub chain : ChainReport
  pub session_seal_ok : Option Bool
  pub bundle_seal_ok : Bool
  pub is_ok : Bool

pub record MemberReport : Type 0 where
  pub agent : String
  pub session_id : String
  pub chain : ChainReport
  pub seal_ok : Option Bool

pub record TeamReport : Type 0 where
  pub sessions : List MemberReport
  pub bundle_seal_ok : Bool
  pub is_ok : Bool

-- `row.get("seq") != expected`, and the like for a text.
abbrev pub has_number : Option ℕ → ℕ → Bool
has_number none n = false
has_number (some m) n = eqb m n

abbrev pub has_text : Option String → String → Bool
has_text none s = false
has_text (some t) s = t == s

-- `x in (True, None)`
abbrev pub true_or_none : Option Bool → Bool
true_or_none none = true
true_or_none (some b) = b

-- What the verifier takes from outside beside the digests of `Codec`: the bytes that `json.dumps` makes
-- of a bundle, and their HMAC.
pub record Documents (Doc : Type 0) : Type 0 where
  pub dumps : Bundle → Doc
  pub loads : Doc → Option Bundle
  pub hmac_sha256 : String → Doc → String
  pub strip : String → String

module _ {Event Doc : Type 0} (c : Codec Event) (d : Documents Doc) where
  -- `chain_hash`, over the text as it stands
  unfoldable pub text_hash : String → String → String
  text_hash prev event = c.sha256 (prev <> event)

  -- The loop of `recompute_chain`, for `total` rows in all.
  unfoldable pub recompute_from : ℕ → String → ℕ → List EvidenceRow → ChainReport
  unfolding text_hash
  recompute_from total prev expected [] = record {
    is_ok = true;
    head = prev;
    count = total;
    error = none;
  }
  recompute_from total prev expected (row ∷ events) =
      let rest = recompute_from total (text_hash prev row.event) (expected + 1) events in
      if not (has_number row.seq expected)
      then record {
        is_ok = false;
        head = prev;
        count = expected - 1;
        error = some (gap expected row.seq);
      }
      else if not (has_text row.hash (text_hash prev row.event))
      then record {
        is_ok = false;
        head = prev;
        count = expected - 1;
        error = some (broken row.seq);
      }
      else rest

  unfoldable pub recompute_chain : List EvidenceRow → ChainReport
  unfolding recompute_from
  recompute_chain events = recompute_from (length events) genesis 1 events

  -- The check of a session's seal; `none` for a session that is not sealed.
  unfoldable pub seal_check : Option SealField → ChainReport → String → Option Bool
  seal_check none chain key = none
  seal_check (some seal) chain key = some (
      if has_text seal.head chain.head && has_number seal.count chain.count
      then elim seal.hmac [
        | none ↦ c.hmac_sha256 key (chain.head <> (":" <> c.decimal chain.count)) == ""
        | some mac ↦ c.hmac_sha256 key (chain.head <> (":" <> c.decimal chain.count)) == mac
      ]
      else false)

  unfoldable pub bundle_check : Bundle → String → String → Bool
  bundle_check bundle mac key = d.hmac_sha256 key (d.dumps bundle) == mac

  -- The single-session part of `verify_bundle_obj`.
  unfoldable pub verify_session_bundle : SessionBundle → String → String → SessionReport
  unfolding recompute_chain seal_check bundle_check
  verify_session_bundle bundle mac key =
      let chain = recompute_chain bundle.events in
      if not chain.is_ok
      then record {
        chain = chain;
        session_seal_ok = some false;
        bundle_seal_ok = false;
        is_ok = false;
      }
      else record {
        chain = chain;
        session_seal_ok = seal_check bundle.seal chain key;
        bundle_seal_ok = bundle_check (of_session bundle) mac key;
        is_ok =
            bundle_check (of_session bundle) mac key
            && true_or_none (seal_check bundle.seal chain key);
      }

  -- One round of `_verify_team_bundle`.
  unfoldable pub member_report : String → MemberEvidence → MemberReport
  unfolding recompute_chain seal_check
  member_report key m = record {
    agent = m.agent;
    session_id = m.session_id;
    chain = recompute_chain m.events;
    seal_ok = seal_check m.seal (recompute_chain m.events) key;
  }

  unfoldable pub all_members_ok : List MemberReport → Bool
  all_members_ok [] = true
  all_members_ok (m ∷ rest) = (m.chain.is_ok && true_or_none m.seal_ok) && all_members_ok rest

  -- `_verify_team_bundle`
  unfoldable pub verify_team_bundle : TeamBundle → String → String → TeamReport
  unfolding member_report all_members_ok bundle_check
  verify_team_bundle bundle mac key = record {
    sessions = map (member_report key) bundle.sessions;
    bundle_seal_ok = bundle_check (of_team bundle) mac key;
    is_ok =
        all_members_ok (map (member_report key) bundle.sessions)
        && bundle_check (of_team bundle) mac key;
  }

  -- `verify_bundle_obj`, by its verdict
  unfoldable pub verify_bundle_obj : Bundle → String → String → Bool
  unfolding verify_session_bundle verify_team_bundle
  verify_bundle_obj (of_session b) mac key = (verify_session_bundle b mac key).is_ok
  verify_bundle_obj (of_team b) mac key = (verify_team_bundle b mac key).is_ok
