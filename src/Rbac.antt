-- ===== src/Rbac.antt =====
-- scr/rbac.py: role-based access control, deny by default.
pub mod Ranks
use selfconnect_runtime.Base.{
  String, Bool, false, not, Option, none, some, List, [], ◌∷◌, if◌then◌else◌, string_eq, contains,
  Dict, lookup, Result, ok, err,
}

pub data AccessDenied : Type 0 where
  no_subject : AccessDenied
  unknown_role : String → AccessDenied
  not_allowed : (role action : String) → AccessDenied

-- `ROLES`
abbrev pub roles : List String
roles = "admin" ∷ "operator" ∷ "auditor" ∷ "viewer" ∷ []

-- `_MATRIX`
abbrev pub matrix : Dict String (List String)
matrix =
    ("run", "admin" ∷ "operator" ∷ [])
    ∷ ("cancel", "admin" ∷ "operator" ∷ [])
    ∷ ("approve", "admin" ∷ "operator" ∷ [])
    ∷ ("read_status", "admin" ∷ "operator" ∷ "auditor" ∷ "viewer" ∷ [])
    ∷ ("read_ledger", "admin" ∷ "operator" ∷ "auditor" ∷ [])
    ∷ ("export_evidence", "admin" ∷ "operator" ∷ "auditor" ∷ [])
    ∷ ("manage_tokens", "admin" ∷ [])
    ∷ ("install_package", "admin" ∷ [])
    ∷ []

-- `role in _MATRIX.get(action, frozenset())`
unfoldable pub permitted : String → String → Bool
unfolding lookup
permitted role action = elim (lookup action matrix) [
  | none ↦ false
  | some allowed ↦ contains allowed role
]

unfoldable pub require : Option String → String → Result AccessDenied (Unit {0})
unfolding permitted
require none action = err no_subject
require (some role) action =
    if not (contains roles role)
    then err (unknown_role role)
    else if not (permitted role action)
    then err (not_allowed role action)
    else ok tt
