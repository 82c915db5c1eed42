-- ===== src/Packages/Licenses.antt =====
-- scr/license.py: licences checked offline. The text of a licence is read and written by json: `parse`
-- is a parameter, `none` where `License.parse` raises an error that `check` catches (a text that is
-- JSON but no object, for which `parse` raises another error, is not modelled), and so are the
-- signed bytes and the check of a signature. A time is a number of seconds.
use selfconnect_runtime.Base.{
  ℕ, ◌≤◌, String, ◌≡◌, refl, sym, ap, ◌∙◌, ◌↔◌, inl, inr, Bool, true, false, not, Option, none,
  some, List, arith, ltb, if◌then◌else◌, Option-cases, string_eq, ◌==◌,
}

pub record License : Type 0 where
  pub subject : String
  pub seats : ℕ
  pub features : List String
  pub not_after : ℕ
  pub public_key : String
  pub signature : String

pub record LicenseFormat : Type 0 where
  pub parse : String → Option License
  -- `_payload`
  pub payload : License → String
  pub verify : String → String → String → Bool

pub data LicenseState : Type 0 where
  valid : LicenseState
  grace : LicenseState
  invalid : String → LicenseState

unfoldable pub may_run : LicenseState → Bool
may_run status = elim status [ valid ↦ true | _ ↦ false ]

unfoldable pub may_read_evidence : LicenseState → Bool
may_read_evidence status = elim status [ invalid reason ↦ false | _ ↦ true ]

module _ (f : LicenseFormat) where
  unfoldable pub check_parsed : License → String → ℕ → LicenseState
  check_parsed l trusted now =
      if not (l.public_key == trusted)
      then invalid "license not signed by the trusted key"
      else if not (f.verify l.public_key l.signature (f.payload l))
      then invalid "signature does not verify"
      else if ltb l.not_after now
      then grace
      else valid

  unfoldable pub check : String → String → ℕ → LicenseState
  unfolding check_parsed
  check text trusted now = elim (f.parse text) [
    | none ↦ invalid "malformed license"
    | some l ↦ check_parsed l trusted now
  ]

  -- The text is a licence that the trusted key signed.
  pub record IsAuthentic (text trusted : String) (l : License) : Type 0 where
    pub parsed : f.parse text ≡ some l
    pub by_trusted : (l.public_key == trusted) ≡ true
    pub verified : f.verify l.public_key l.signature (f.payload l) ≡ true

  check-parsed :
      (text trusted : String) (now : ℕ) (l : License)
      → f.parse text ≡ some l
      → check text trusted now ≡ check_parsed l trusted now
  unfolding check
  check-parsed text trusted now l parsed = ground (arith, parsed)

  check-authentic :
      (text trusted : String) (now : ℕ) (l : License)
      → IsAuthentic text trusted l
      → check text trusted now ≡ (if ltb l.not_after now then grace else valid)
  unfolding check check_parsed
  check-authentic text trusted now l h = ground (arith, h.parsed, h.by_trusted, h.verified)

  check_parsed-readable :
      (text trusted : String) (now : ℕ) (l : License)
      → f.parse text ≡ some l
      → may_read_evidence (check_parsed l trusted now) ≡ true
      → IsAuthentic text trusted l
  unfolding check_parsed may_read_evidence
  check_parsed-readable text trusted now l parsed h = record {
    parsed = parsed;
    by_trusted = ground (arith, h);
    verified = ground (arith, h);
  }

  check-readable :
      (text trusted : String) (now : ℕ)
      → may_read_evidence (check text trusted now) ≡ true
      → (l : License) × IsAuthentic text trusted l
  unfolding check may_read_evidence
  check-readable text trusted now h = elim (Option-cases (f.parse text)) [
    | inl unreadable ↦ ground (arith, unreadable, h)
    | inr (l, parsed) ↦ (
      l,
      check_parsed-readable text trusted now l parsed
          (ap may_read_evidence (sym (check-parsed text trusted now l parsed)) ∙ h),
    )
  ]

  runs-readable : (status : LicenseState) → may_run status ≡ true → may_read_evidence status ≡ true
  unfolding may_run may_read_evidence
  runs-readable valid h = refl
  runs-readable grace h = refl
  runs-readable (invalid reason) h = ground (arith, h)

  authentic-runs :
      (now not_after : ℕ)
      → (may_run (if ltb not_after now then grace else valid) ≡ true) ↔ (now ≤ not_after)
  unfolding may_run
  authentic-runs now not_after = (λ h. ground (arith, h), λ h. ground (arith, h))

  authentic-reads :
      (now not_after : ℕ) → may_read_evidence (if ltb not_after now then grace else valid) ≡ true
  unfolding may_read_evidence
  authentic-reads now not_after = ground arith

  -- The evidence may be read exactly under a text that is a licence signed by the trusted key, at every
  -- time, and a licence allows runs exactly when it is such a licence and its last second is not over.
  pub check-allows :
      (text trusted : String) (now : ℕ)
      → ((may_read_evidence (check text trusted now) ≡ true)
          ↔ ((l : License) × IsAuthentic text trusted l))
        × ((may_run (check text trusted now) ≡ true)
            ↔ ((l : License) × IsAuthentic text trusted l × (now ≤ l.not_after)))
  check-allows text trusted now = (
    (
      check-readable text trusted now,
      λ (l, h).
          ap may_read_evidence (check-authentic text trusted now l h)
          ∙ authentic-reads now l.not_after,
    ),
    (
      λ runs.
          let (l, h) = check-readable text trusted now (runs-readable _ runs) in
          (
            l,
            h,
            (authentic-runs now l.not_after).0
                (ap may_run (sym (check-authentic text trusted now l h)) ∙ runs),
          ),
      λ (l, h, intime).
          ap may_run (check-authentic text trusted now l h)
          ∙ (authentic-runs now l.not_after).1 intime,
    ),
  )
