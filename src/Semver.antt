-- ===== src/Semver.antt =====
-- scr/semver.py: versions and constraints. The match of `_VER_RE` with the numbers of its groups,
-- `str.strip` and `str.startswith` with the text after the prefix are parameters.
pub mod Comparison
use selfconnect_runtime.Base.{
  ℕ, String, Bool, not, ◌&&◌, ◌||◌, Option, none, some, List, [], ◌∷◌, ltb, eqb, if◌then◌else◌,
  string_eq, ◌==◌, Result, ok, err, ◌>>=◌, ◌>>◌,
}

pub record Version : Type 0 where
  pub major : ℕ
  pub minor : ℕ
  pub patch : ℕ

pub data SemverError : Type 0 where
  not_a_version : String → SemverError

pub record Matching : Type 0 where
  pub match_version : String → Option Version
  pub strip : String → String
  pub after_prefix : String → String → Option String

-- The order of the triples.
unfoldable pub version_lt : Version → Version → Bool
version_lt v w =
    ltb v.major w.major
    || (eqb v.major w.major
        && (ltb v.minor w.minor || (eqb v.minor w.minor && ltb v.patch w.patch)))

unfoldable pub version_eq : Version → Version → Bool
version_eq v w = eqb v.major w.major && (eqb v.minor w.minor && eqb v.patch w.patch)

-- `_OPS`
abbrev pub operators : List String
operators = ">=" ∷ "<=" ∷ "==" ∷ ">" ∷ "<" ∷ []

module _ (m : Matching) where
  unfoldable pub parse : String → Result SemverError Version
  parse version = elim (m.match_version version) [
    | none ↦ err (not_a_version version)
    | some v ↦ ok v
  ]

  -- The first operator that the constraint starts with, and the rest.
  unfoldable pub split_operator : String → List String → String × String
  split_operator constraint [] = ("==", constraint)
  split_operator constraint (op ∷ ops) =
      let later = split_operator constraint ops in
      elim (m.after_prefix constraint op) [ some rest ↦ (op, rest) | none ↦ later ]

  unfoldable pub compare : String → Version → Version → Bool
  unfolding version_lt version_eq
  compare op v target =
      if op == ">="
      then not (version_lt v target)
      else if op == "<="
      then not (version_lt target v)
      else if op == ">"
      then version_lt target v
      else if op == "<"
      then version_lt v target
      else version_eq v target

  unfoldable pub satisfies : String → String → Result SemverError Bool
  unfolding parse split_operator compare
  satisfies version constraint = do
    v ← parse version
    target ← parse (split_operator (m.strip constraint) operators).1
    ok (compare (split_operator (m.strip constraint) operators).0 v target)
