-- ===== src/Compliance/Honesty.antt =====
-- scr/compliance.py: the controls that a run without any evidence satisfies.
use selfconnect_runtime.Base.{
  ℕ, ◌≤◌, String, ◌≡◌, refl, sym, ◌∙◌, inl, inr, Bool, true, false, ◌&&◌, Option, none, some, List,
  [], ◌∷◌, ◌++◌, arith, Bool-cases, string_eq, contains, length, filter, length-append,
  filter-append,
}
use selfconnect_runtime.Compliance.{
  Snapshot, Control, Framework, ledger_signal, operator_signal, package_signal, first_signal,
  signal_or_false, passes, all_pass, has_sources, is_satisfied, count_satisfied, evaluate_framework,
  evaluate,
}

-- The snapshot of a bundle without events, without sessions and without a package
abbrev pub empty_run : ℕ → Snapshot
empty_run loaded = record {
  events = [];
  package_name = "";
  key_id = "";
  sealed_sessions = 0;
  total_sessions = 0;
  bundle_seal = true;
  frameworks_loaded = loaded;
}

-- The sources whose verdict does not depend on the run
abbrev pub constant_sources : List String
constant_sources = "policy.bundle.signature" ∷ "exporter.bundle" ∷ "framework.coverage" ∷ []

ledger_signal-empty :
    (src : String) (loaded : ℕ) → signal_or_false (ledger_signal src (empty_run loaded)) ≡ false
unfolding ledger_signal
ledger_signal-empty src loaded = ground arith

operator_signal-empty :
    (src : String) (loaded : ℕ) → signal_or_false (operator_signal src (empty_run loaded)) ≡ false
unfolding operator_signal
operator_signal-empty src loaded = ground arith

package_signal-empty :
    (src : String) (loaded : ℕ)
    → contains constant_sources src ≡ false
    → signal_or_false (package_signal src (empty_run loaded)) ≡ false
unfolding package_signal
package_signal-empty src loaded h = ground (arith, h)

first_signal-false :
    (first later : Option Bool)
    → signal_or_false first ≡ false
    → signal_or_false later ≡ false
    → signal_or_false (first_signal first later) ≡ false
first_signal-false none later h g = g
first_signal-false (some b) later h g = h

module _ (lower : String → String) where
  passes-constant :
      (source : String) (loaded : ℕ)
      → 4 ≤ loaded
      → contains constant_sources (lower source) ≡ true
      → passes lower source (empty_run loaded) ≡ true
  unfolding passes ledger_signal package_signal operator_signal string_eq
  passes-constant source loaded enough h =
      elim (string_eq.dec (lower source) "policy.bundle.signature") [
        | yes bundle ↦ rw bundle refl
        | no other ↦ elim (string_eq.dec (lower source) "exporter.bundle") [
          | yes exporter ↦ rw exporter refl
          | no another ↦
              let last : lower source ≡ "framework.coverage" = ground (arith, h, other, another) in
              rw last (ground (arith, enough))
        ]
      ]

  passes-empty :
      (source : String) (loaded : ℕ)
      → 4 ≤ loaded
      → passes lower source (empty_run loaded) ≡ contains constant_sources (lower source)
  unfolding passes
  passes-empty source loaded enough = elim (Bool-cases (contains constant_sources (lower source))) [
    | inl known ↦ passes-constant source loaded enough known ∙ sym known
    | inr unknown ↦
        let src = lower source in
        let run = empty_run loaded in
        first_signal-false (ledger_signal src run)
          (first_signal (package_signal src run) (operator_signal src run))
          (ledger_signal-empty src loaded)
          (first_signal-false (package_signal src run) (operator_signal src run)
            (package_signal-empty src loaded unknown) (operator_signal-empty src loaded))
        ∙ sym unknown
  ]

  abbrev pub all_constant : List String → Bool
  all_constant [] = true
  all_constant (s ∷ sources) = contains constant_sources (lower s) && all_constant sources

  -- The control has sources, and none of them depends on the run.
  abbrev pub is_free : Control → Bool
  is_free c = has_sources lower c.evidence_sources && all_constant c.evidence_sources

  all_pass-empty :
      (sources : List String) (loaded : ℕ)
      → 4 ≤ loaded
      → all_pass lower sources (empty_run loaded) ≡ all_constant sources
  unfolding all_pass
  all_pass-empty [] loaded enough = refl
  all_pass-empty (s ∷ sources) loaded enough =
      rw (passes-empty s loaded enough) (rw (all_pass-empty sources loaded enough) refl)

  is_satisfied-empty :
      (c : Control) (loaded : ℕ) → 4 ≤ loaded → is_satisfied lower (empty_run loaded) c ≡ is_free c
  unfolding is_satisfied
  is_satisfied-empty c loaded enough = rw (all_pass-empty c.evidence_sources loaded enough) refl

  count_satisfied-empty :
      (controls : List Control) (loaded : ℕ)
      → 4 ≤ loaded
      → count_satisfied lower (empty_run loaded) controls ≡ length (filter is_free controls)
  unfolding count_satisfied filter
  count_satisfied-empty [] loaded enough = refl
  count_satisfied-empty (c ∷ controls) loaded enough =
      ground
        (arith, is_satisfied-empty c loaded enough, count_satisfied-empty controls loaded enough)

  -- All controls of the frameworks
  abbrev pub controls_of : List Framework → List Control
  controls_of [] = []
  controls_of (fw ∷ fws) = fw.controls ++ controls_of fws

  evaluate-total :
      (fws : List Framework) (snap : Snapshot)
      → (evaluate lower fws snap).controls_total ≡ length (controls_of fws)
  unfolding evaluate evaluate_framework
  evaluate-total [] snap = refl
  evaluate-total (fw ∷ fws) snap =
      omega (arith, evaluate-total fws snap, length-append fw.controls (controls_of fws))

  evaluate-satisfied :
      (fws : List Framework) (loaded : ℕ)
      → 4 ≤ loaded
      → (evaluate lower fws (empty_run loaded)).controls_satisfied
        ≡ length (filter is_free (controls_of fws))
  unfolding evaluate evaluate_framework filter
  evaluate-satisfied [] loaded enough = refl
  evaluate-satisfied (fw ∷ fws) loaded enough =
      rw (filter-append is_free fw.controls (controls_of fws)) (
        omega (
          arith,
          evaluate-satisfied fws loaded enough,
          count_satisfied-empty fw.controls loaded enough,
          length-append (filter is_free fw.controls) (filter is_free (controls_of fws)),
        ))

  -- For a bundle without events, sessions and package, with at least four frameworks loaded, an
  -- evaluation counts every control of the frameworks once, and as satisfied exactly the controls that
  -- have sources and whose sources, in lower case, are all among "policy.bundle.signature",
  -- "exporter.bundle" and "framework.coverage", whose verdict is the same for every such bundle.
  pub evaluate-empty_run :
      (fws : List Framework) (loaded : ℕ)
      → 4 ≤ loaded
      → ((evaluate lower fws (empty_run loaded)).controls_total ≡ length (controls_of fws))
        × ((evaluate lower fws (empty_run loaded)).controls_satisfied
            ≡ length (filter is_free (controls_of fws)))
  evaluate-empty_run fws loaded enough =
      (evaluate-total fws (empty_run loaded), evaluate-satisfied fws loaded enough)
