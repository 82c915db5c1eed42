-- ===== src/Packages/Requirements.antt =====
-- scr/registry.py: `check_requirements`. The manifest's keys that it reads are a record: a key that is
-- missing, or has a value that counts as false, is `none` or an empty list; the tests of versions are
-- those of scr/semver.py. The numbers of the capabilities are natural numbers.
use selfconnect_runtime.Base.{
  ℕ, ◌≤◌, String, ◌<>◌, ◌≡◌, refl, ◌↔◌, Bool, true, false, not, ◌&&◌, Option, none, some, List, [],
  ◌∷◌, ◌++◌, arith, ltb, if◌then◌else◌, string_eq, All, Dict, lookup, Result, ok, err,
}
use selfconnect_runtime.Semver.{SemverError, Matching, satisfies}

pub record Requirements : Type 0 where
  pub runtime_min : Option String
  pub requires : Dict String String
  pub min_context : Option ℕ
  pub tool_calls : Bool

-- `model_caps`
pub record ModelCaps : Type 0 where
  pub context : ℕ
  pub tool_calls : Bool

pub data Problem : Type 0 where
  runtime_too_old : String → Problem
  bad_runtime : Problem
  missing_dependency : String → Problem
  unsatisfied_dependency : String → Problem
  bad_dependency : String → Problem
  context_too_small : Problem
  no_tool_calls : Problem

module _ (m : Matching) where
  -- The problem of one test of a version, if it has one
  unfoldable pub problem_of : Result SemverError Bool → Problem → Problem → List Problem
  problem_of (err e) unmet bad = bad ∷ []
  problem_of (ok holds) unmet bad = if holds then [] else unmet ∷ []

  unfoldable pub runtime_problems : Option String → String → List Problem
  unfolding problem_of satisfies
  runtime_problems none runtime_version = []
  runtime_problems (some least) runtime_version =
      problem_of (satisfies m runtime_version (">=" <> least)) (runtime_too_old least) bad_runtime

  unfoldable pub dependency_problem : String → String → Option String → List Problem
  unfolding problem_of satisfies
  dependency_problem dep constraint none = missing_dependency dep ∷ []
  dependency_problem dep constraint (some have) =
      problem_of (satisfies m have constraint) (unsatisfied_dependency dep) (bad_dependency dep)

  -- The loop over the dependencies
  unfoldable pub dependency_problems : Dict String String → Dict String String → List Problem
  unfolding lookup dependency_problem
  dependency_problems [] installed = []
  dependency_problems ((dep, constraint) ∷ rest) installed =
      dependency_problem dep constraint (lookup dep installed) ++ dependency_problems rest installed

  unfoldable pub model_problems : Requirements → ModelCaps → List Problem
  model_problems reqs caps =
      elim reqs.min_context [
        | none ↦ []
        | some least ↦ if ltb caps.context least then context_too_small ∷ [] else []
      ]
      ++ (if reqs.tool_calls && not caps.tool_calls then no_tool_calls ∷ [] else [])

  unfoldable pub check_requirements :
      Requirements → String → Dict String String → ModelCaps → List Problem
  unfolding runtime_problems dependency_problems model_problems
  check_requirements reqs runtime_version installed caps =
      runtime_problems reqs.runtime_min runtime_version
      ++ (dependency_problems reqs.requires installed ++ model_problems reqs caps)

  -- The constraint is read and the version satisfies it.
  abbrev pub Meets : String → String → Type 0
  Meets version constraint = satisfies m version constraint ≡ ok true

  -- What the manifest's declarations mean
  pub record IsCompatible (reqs : Requirements) (runtime_version : String)
      (installed : Dict String String) (caps : ModelCaps) : Type 0 where
    pub runs_on :
        (least : String) → reqs.runtime_min ≡ some least → Meets runtime_version (">=" <> least)
    pub has_dependencies :
        All
          (λ (r : String × String).
            (have : String) × (lookup r.0 installed ≡ some have) × Meets have r.1)
          reqs.requires
    pub has_context : (least : ℕ) → reqs.min_context ≡ some least → least ≤ caps.context
    pub calls_tools : reqs.tool_calls ≡ true → caps.tool_calls ≡ true

  nil-append : {A : Type 0} (xs ys : List A) → (xs ++ ys ≡ []) ↔ ((xs ≡ []) × (ys ≡ []))
  nil-append [] ys = (λ h. (refl, h), λ h. h.1)
  nil-append (x ∷ xs) ys = (λ h. ground (arith, h), λ h. ground (arith, h.0))

  problem_of-nil :
      (r : Result SemverError Bool) (unmet bad : Problem)
      → (problem_of r unmet bad ≡ []) ↔ (r ≡ ok true)
  unfolding problem_of
  problem_of-nil (err e) unmet bad = (λ h. ground (arith, h), λ h. ground (arith, h))
  problem_of-nil (ok true) unmet bad = (λ h. refl, λ h. refl)
  problem_of-nil (ok false) unmet bad = (λ h. ground (arith, h), λ h. ground (arith, h))

  runtime_problems-nil :
      (least : Option String) (version : String)
      → (runtime_problems least version ≡ [])
        ↔ ((wanted : String) → least ≡ some wanted → Meets version (">=" <> wanted))
  unfolding runtime_problems
  runtime_problems-nil none version = (λ h wanted e. ground (arith, e), λ h. refl)
  runtime_problems-nil (some l) version =
      let same = problem_of-nil (satisfies m version (">=" <> l)) (runtime_too_old l) bad_runtime in
      (λ h wanted e. ground (arith, e, same.0 h), λ h. same.1 (h l refl))

  dependency_problem-nil :
      (dep constraint : String) (installed : Option String)
      → (dependency_problem dep constraint installed ≡ [])
        ↔ ((have : String) × (installed ≡ some have) × Meets have constraint)
  unfolding dependency_problem
  dependency_problem-nil dep constraint none =
      (λ h. ground (arith, h), λ (have, e, good). ground (arith, e))
  dependency_problem-nil dep constraint (some have) =
      let same =
        problem_of-nil (satisfies m have constraint) (unsatisfied_dependency dep)
          (bad_dependency dep) in
      (λ h. (have, refl, same.0 h), λ (other, e, good). same.1 (ground (arith, e, good)))

  dependency_problems-nil :
      (requires installed : Dict String String)
      → (dependency_problems requires installed ≡ [])
        ↔ All
            (λ (r : String × String).
              (have : String) × (lookup r.0 installed ≡ some have) × Meets have r.1)
            requires
  unfolding dependency_problems
  dependency_problems-nil [] installed = (λ h. tt, λ h. refl)
  dependency_problems-nil ((dep, constraint) ∷ rest) installed =
      let both =
        nil-append (dependency_problem dep constraint (lookup dep installed))
          (dependency_problems rest installed) in
      let here = dependency_problem-nil dep constraint (lookup dep installed) in
      let there = dependency_problems-nil rest installed in
      (λ h. (here.0 (both.0 h).0, there.0 (both.0 h).1), λ h. both.1 (here.1 h.0, there.1 h.1))

  context_problems-nil :
      (least : Option ℕ) (context : ℕ)
      → (elim least as (λ o. List Problem) [
        | none ↦ []
        | some l ↦ if ltb context l then context_too_small ∷ [] else []
      ]
          ≡ [])
        ↔ ((l : ℕ) → least ≡ some l → l ≤ context)
  context_problems-nil none context = (λ h l e. ground (arith, e), λ h. refl)
  context_problems-nil (some l) context =
      (λ h k e. ground (arith, e, h), λ h. ground (arith, h l refl))

  model_problems-nil :
      (reqs : Requirements) (caps : ModelCaps)
      → (model_problems reqs caps ≡ []) ↔ (
          ((l : ℕ) → reqs.min_context ≡ some l → l ≤ caps.context)
          × (reqs.tool_calls ≡ true → caps.tool_calls ≡ true))
  unfolding model_problems
  model_problems-nil reqs caps =
      let both =
        nil-append _ (if reqs.tool_calls && not caps.tool_calls then no_tool_calls ∷ [] else []) in
      let context = context_problems-nil reqs.min_context caps.context in
      (
        λ h. (context.0 (both.0 h).0, λ calls. ground (arith, calls, (both.0 h).1)),
        λ h. both.1 (context.1 h.0, ground (arith, h.1)),
      )

  -- `check_requirements` finds no problem exactly when the runtime's version satisfies the manifest's
  -- least version, every dependency is installed at a version that satisfies its constraint, the model's
  -- context is as long as asked for, and the model calls tools where they are asked for; a constraint or
  -- a version that cannot be read is a problem.
  pub check_requirements-IsCompatible :
      (reqs : Requirements) (runtime_version : String) (installed : Dict String String)
      (caps : ModelCaps)
      → (check_requirements reqs runtime_version installed caps ≡ [])
        ↔ IsCompatible reqs runtime_version installed caps
  unfolding check_requirements
  check_requirements-IsCompatible reqs runtime_version installed caps =
      let all =
        nil-append (runtime_problems reqs.runtime_min runtime_version)
          (dependency_problems reqs.requires installed ++ model_problems reqs caps) in
      let rest =
        nil-append (dependency_problems reqs.requires installed) (model_problems reqs caps) in
      let runtime = runtime_problems-nil reqs.runtime_min runtime_version in
      let dependencies = dependency_problems-nil reqs.requires installed in
      let model = model_problems-nil reqs caps in
      (
        λ h. record {
          runs_on = runtime.0 (all.0 h).0;
          has_dependencies = dependencies.0 (rest.0 (all.0 h).1).0;
          has_context = (model.0 (rest.0 (all.0 h).1).1).0;
          calls_tools = (model.0 (rest.0 (all.0 h).1).1).1;
        },
        λ h. all.1 (
          runtime.1 h.runs_on,
          rest.1 (dependencies.1 h.has_dependencies, model.1 (h.has_context, h.calls_tools)),
        ),
      )
