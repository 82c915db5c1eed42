-- ===== src/Compliance.antt =====
-- scr/compliance.py: the signals of a run's ledger and the evaluation of controls. An event is what the
-- mapper reads of it, with the empty text for a key that is missing or counts as false; the texts that
-- explain a signal are left out, and `str.lower` is a parameter.
pub mod Honesty
use selfconnect_runtime.Base.{
  ℕ, ◌+◌, String, Bool, true, false, not, ◌&&◌, Option, none, some, List, [], ◌∷◌, ltb, leb, eqb,
  if◌then◌else◌, string_eq, ◌==◌, contains, length, filter,
}

pub record LoggedEvent : Type 0 where
  pub kind : String
  pub hash : String
  pub args_sha256 : String
  pub decision : String
  pub eff_cap_sha256 : String
  pub reason : String

pub record Snapshot : Type 0 where
  pub events : List LoggedEvent
  pub package_name : String
  pub key_id : String
  pub sealed_sessions : ℕ
  pub total_sessions : ℕ
  pub bundle_seal : Bool
  pub frameworks_loaded : ℕ

-- `_count`
unfoldable pub count_events : (LoggedEvent → Bool) → Snapshot → ℕ
unfolding filter
count_events pred snap = length (filter pred snap.events)

-- The signals of the ledger; `none` where the code goes on.
unfoldable pub ledger_signal : String → Snapshot → Option Bool
unfolding count_events
ledger_signal src snap =
    if contains ("ledger.entries" ∷ "ledger.segments" ∷ "ledger.entry" ∷ []) src
    then some (ltb 0 (length snap.events))
    else if src == "ledger.entry.entry_hash"
    then some (
        ltb 0 (length snap.events)
        && eqb (count_events (λ e. not (e.hash == "")) snap) (length snap.events))
    else if contains ("ledger.entry_hash chain" ∷ "ledger.segment.signature" ∷ []) src
    then some (ltb 0 snap.total_sessions && eqb snap.sealed_sessions snap.total_sessions)
    else if src == "ledger.args_hash"
    then some (ltb 0 (count_events (λ e. not (e.args_sha256 == "")) snap))
    else if src == "ledger.policy_decision"
    then some (ltb 0 (count_events (λ e. e.kind == "policy" && not (e.decision == "")) snap))
    else if src == "ledger.policy_decision=deny"
    then some (
        ltb 0 (
          count_events (λ e. e.kind == "cap_denied") snap
          + count_events (λ e. e.kind == "policy" && e.decision == "denied") snap))
    else if src == "ledger.action=spawn"
    then some (ltb 0 (count_events (λ e. e.kind == "delegate") snap))
    else if src == "ledger.classification"
    then some (ltb 0 (count_events (λ e. e.kind == "grant_context") snap))
    else if src == "ledger.caveats"
    then some
        (ltb 0 (count_events (λ e. e.kind == "delegate" && not (e.eff_cap_sha256 == "")) snap))
    else if src == "ledger.entry.decision_reason"
    then some (ltb 0 (count_events (λ e. not (e.reason == "")) snap))
    else none

-- The signals of approvals
unfoldable pub operator_signal : String → Snapshot → Option Bool
unfolding count_events
operator_signal src snap =
    if src == "operator_queue.resolved"
    then some (ltb 0 (count_events (λ e. e.kind == "approval") snap))
    else if src == "operator_queue"
    then some
        (ltb 0 (count_events (λ e. contains ("approval" ∷ "approval_required" ∷ []) e.kind) snap))
    else none

-- The signals of the package, of the keys and of the exporter
unfoldable pub package_signal : String → Snapshot → Option Bool
package_signal src snap =
    if contains ("policy.bundle.current" ∷ "policy.bundles" ∷ []) src
    then some (not (snap.package_name == ""))
    else if contains ("identity.public_key_pem" ∷ "identity.key_algorithm" ∷ []) src
    then some (not (snap.key_id == ""))
    else if contains ("policy.bundle.signature" ∷ "exporter.bundle" ∷ []) src
    then some snap.bundle_seal
    else if src == "framework.coverage"
    then some (leb 4 snap.frameworks_loaded)
    else none

abbrev pub first_signal : Option Bool → Option Bool → Option Bool
first_signal (some b) later = some b
first_signal none later = later

abbrev pub signal_or_false : Option Bool → Bool
signal_or_false none = false
signal_or_false (some b) = b

pub record Control : Type 0 where
  pub id : String
  pub evidence_sources : List String

pub record Framework : Type 0 where
  pub framework_id : String
  pub controls : List Control

pub record FrameworkResult : Type 0 where
  pub framework_id : String
  pub controls_total : ℕ
  pub controls_satisfied : ℕ

pub record Evaluation : Type 0 where
  pub frameworks : List FrameworkResult
  pub controls_total : ℕ
  pub controls_satisfied : ℕ

module _ (lower : String → String) where
  -- `_passed_and_detail`, by its verdict. Every other source fails, those that the code names as not
  -- evidenced too.
  unfoldable pub passes : String → Snapshot → Bool
  unfolding ledger_signal operator_signal package_signal
  passes source snap =
      let src = lower source in
      signal_or_false (
        first_signal (ledger_signal src snap)
          (first_signal (package_signal src snap) (operator_signal src snap)))

  unfoldable pub all_pass : List String → Snapshot → Bool
  unfolding passes
  all_pass [] snap = true
  all_pass (s ∷ sources) snap = passes s snap && all_pass sources snap

  abbrev pub has_sources : List String → Bool
  has_sources [] = false
  has_sources (s ∷ sources) = true

  -- `ok = bool(rows) and all(r["passed"] for r in rows)`
  unfoldable pub is_satisfied : Snapshot → Control → Bool
  unfolding all_pass
  is_satisfied snap c = has_sources c.evidence_sources && all_pass c.evidence_sources snap

  unfoldable pub count_satisfied : Snapshot → List Control → ℕ
  unfolding is_satisfied
  count_satisfied snap [] = 0
  count_satisfied snap (c ∷ controls) =
      let rest = count_satisfied snap controls in if is_satisfied snap c then rest + 1 else rest

  -- The rows of one framework
  unfoldable pub evaluate_framework : Snapshot → Framework → FrameworkResult
  unfolding count_satisfied
  evaluate_framework snap fw = record {
    framework_id = fw.framework_id;
    controls_total = length fw.controls;
    controls_satisfied = count_satisfied snap fw.controls;
  }

  -- `evaluate`, on the frameworks that are loaded
  unfoldable pub evaluate : List Framework → Snapshot → Evaluation
  unfolding evaluate_framework
  evaluate [] snap = record { frameworks = []; controls_total = 0; controls_satisfied = 0 }
  evaluate (fw ∷ fws) snap =
      let row = evaluate_framework snap fw in
      let rest = evaluate fws snap in
      record {
        frameworks = row ∷ rest.frameworks;
        controls_total = row.controls_total + rest.controls_total;
        controls_satisfied = row.controls_satisfied + rest.controls_satisfied;
      }
