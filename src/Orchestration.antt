-- ===== src/Orchestration.antt =====
-- scr/orchestration.py: the delegation tree of a team and the effective manifest of an agent.
pub mod Severing
pub mod Delegation
pub mod Members
use selfconnect_runtime.Base.{
  ℕ, zero, suc, ◌+◌, ◌-◌, ◌*◌, ◌/◌, ◌%◌, ◌≤◌, ◌<◌, min, max, String, ◌<>◌, ◌≡◌, refl, sym, ap, ◌∙◌,
  subst, ◌≢◌, ◌↔◌, ◌⊎◌, inl, inr, Bool, true, false, not, ◌&&◌, ◌||◌, Option, none, some, List, [],
  ◌∷◌, ◌++◌, map, arith, ltb, leb, eqb, if◌then◌else◌, Bool-cases, Option-cases, leb→le, ltb→lt,
  lt→ltb, Eq, string_eq, ◌==◌, contains, intersect, difference, ==_refl, contains-intersect,
  contains-difference, difference-nil_contains, length, get_last?, get_elem?, take, drop, filter,
  find, any, All, length-append, filter-append, get_last?-append_one, All-append, Some, Dict,
  lookup, insert, erase, has_key, lookup-insert, lookup-erase, lookup-insert_self, Result, ok, err,
  ◌>>=◌, ◌>>◌, require_else, Result-cases,
}
use selfconnect_runtime.Capability.{Denied, Os, CapabilityManifest, attenuate}

-- `DelegationError` by its cause, the `CapabilityDenied` that `attenuate` raises, and the
-- `KeyError` of an agent that has no node.
pub data TeamError : Type 0 where
  unknown_parent : String → TeamError
  not_reachable : String → TeamError
  too_deep : TeamError
  severed : String → TeamError
  key_error : String → TeamError
  denied : Denied → TeamError

pub record AgentNode : Type 0 where
  pub name : String
  pub manifest : CapabilityManifest

pub record Team : Type 0 where
  pub root : AgentNode
  pub edges : Dict String (List String)
  pub nodes : Dict String AgentNode
  pub max_depth : ℕ
  pub revoked : List String

-- `Team.revoke`; a set is read through `contains` only.
unfoldable pub revoke : Team → String → Team
revoke t name = record t { revoked = name ∷ t.revoked }

-- `edges.setdefault(parent, []).append(child)`
abbrev pub append_child : Option (List String) → String → List String
append_child none child = child ∷ []
append_child (some children) child = children ++ child ∷ []

unfoldable pub add : Team → String → AgentNode → Result TeamError Team
unfolding has_key insert lookup
add t parent child =
    if not (has_key parent t.nodes) && not (parent == t.root.name)
    then err (unknown_parent parent)
    else ok (record t {
      nodes = insert child.name child t.nodes;
      edges = insert parent (append_child (lookup parent t.edges) child.name) t.edges;
    })

unfoldable pub node : Team → String → Result TeamError AgentNode
unfolding lookup
node t name =
    if name == t.root.name
    then ok t.root
    else elim (lookup name t.nodes) [ none ↦ err (key_error name) | some n ↦ ok n ]

-- `for c in children: parent_of[c] = parent`
unfoldable pub set_parents : String → List String → Dict String String → Dict String String
unfolding insert
set_parents parent [] d = d
set_parents parent (c ∷ children) d = set_parents parent children (insert c parent d)

unfoldable pub parents_of : Dict String (List String) → Dict String String → Dict String String
unfolding set_parents
parents_of [] d = d
parents_of ((parent, children) ∷ edges) d = parents_of edges (set_parents parent children d)

-- The `while` loop of `path_to` at the last entry `at` of the chain, with the entries before it in
-- `later`, the nearest first. The loop may append while `len(chain)` stays within
-- `max_depth + 1`: `room` counts how often.
unfoldable pub climb :
    ℕ → String → String → Dict String String → String → List String → Result TeamError (List String)
unfolding lookup
climb zero root name parent_of at later =
    if at == root
    then ok (at ∷ later)
    else elim (lookup at parent_of) [ none ↦ err (not_reachable name) | some p ↦ err too_deep ]
climb (suc room) root name parent_of at later =
    if at == root then ok (at ∷ later) else elim (lookup at parent_of) [
      | none ↦ err (not_reachable name)
      | some p ↦ climb room root name parent_of p (at ∷ later)
    ]

-- Root to `name`, as after `chain.reverse()`.
unfoldable pub path_to : Team → String → Result TeamError (List String)
unfolding climb parents_of
path_to t name = climb t.max_depth t.root.name name (parents_of t.edges []) name []

unfoldable pub is_severed : Team → String → Result TeamError Bool
unfolding path_to
is_severed t name = do path ← path_to t name; ok (any (contains t.revoked) path)

abbrev pub lift_denied : Result Denied CapabilityManifest → Result TeamError CapabilityManifest
lift_denied (ok m) = ok m
lift_denied (err e) = err (denied e)

module _ (os : Os) where
  -- `for node_name in path[1:]: eff = attenuate(eff, self._node(node_name).manifest)`
  unfoldable pub attenuate_along :
      Team → CapabilityManifest → List String → Result TeamError CapabilityManifest
  unfolding node
  attenuate_along t eff [] = ok eff
  attenuate_along t eff (name ∷ path) = do
    n ← node t name
    next ← lift_denied (attenuate os eff n.manifest)
    attenuate_along t next path

  unfoldable pub effective_manifest : Team → String → Result TeamError CapabilityManifest
  unfolding path_to attenuate_along
  effective_manifest t name = do
    path ← path_to t name
    require_else (not (any (contains t.revoked) path)) (severed name)
    attenuate_along t t.root.manifest (drop 1 path)
