-- ===== src/Orchestration/Members.antt =====
-- `Team.add` keeps every child a node, and so no effective manifest fails for want of a node.
use selfconnect_runtime.Base.{
  ℕ, zero, suc, String, ◌≡◌, subst, ◌≢◌, inl, inr, true, not, ◌&&◌, some, List, [], ◌∷◌, arith,
  Bool-cases, Option-cases, string_eq, ◌==◌, drop, All, All-append, Dict, lookup, insert, has_key,
  lookup-insert, lookup-insert_self, Result, ok, err, Result-cases,
}
use selfconnect_runtime.Capability.{Denied, Os, CapabilityManifest, attenuate}
use selfconnect_runtime.Orchestration.{
  key_error, Team, AgentNode, add, revoke, append_child, node, set_parents, parents_of, climb,
  path_to, lift_denied, attenuate_along, effective_manifest,
}

module _ (nodes : Dict String AgentNode) where
  abbrev Known : String → Type 0
  Known name = has_key name nodes ≡ true

  -- Every child in a map of edges is known.
  abbrev EdgesKnown : Dict String (List String) → Type 0
  EdgesKnown = All (λ (e : String × List String). All Known e.1)

  -- Every agent that has a parent is known.
  abbrev ChildrenKnown : Dict String String → Type 0
  ChildrenKnown = All (λ (e : String × String). Known e.0)

  insert-ChildrenKnown :
      (c p : String) (d : Dict String String)
      → Known c
      → ChildrenKnown d
      → ChildrenKnown (insert c p d)
  unfolding insert
  insert-ChildrenKnown c p [] k h = (k, tt)
  insert-ChildrenKnown c p ((j, q) ∷ d) k h = ground (arith, insert-ChildrenKnown c p d k h.1)

  set_parents-ChildrenKnown :
      (parent : String) (children : List String) (d : Dict String String)
      → All Known children
      → ChildrenKnown d
      → ChildrenKnown (set_parents parent children d)
  unfolding set_parents
  set_parents-ChildrenKnown parent [] d ks h = h
  set_parents-ChildrenKnown parent (c ∷ children) d ks h =
      set_parents-ChildrenKnown parent children (insert c parent d) ks.1
        (insert-ChildrenKnown c parent d ks.0 h)

  parents_of-ChildrenKnown :
      (edges : Dict String (List String)) (d : Dict String String)
      → EdgesKnown edges
      → ChildrenKnown d
      → ChildrenKnown (parents_of edges d)
  unfolding parents_of
  parents_of-ChildrenKnown [] d ks h = h
  parents_of-ChildrenKnown ((parent, children) ∷ edges) d ks h =
      parents_of-ChildrenKnown edges (set_parents parent children d) ks.1
        (set_parents-ChildrenKnown parent children d ks.0 h)

  lookup-Known :
      (d : Dict String String) (c p : String) → ChildrenKnown d → lookup c d ≡ some p → Known c
  unfolding lookup
  lookup-Known [] c p h e = absurd (ground arith)
  lookup-Known ((j, q) ∷ d) c p h e = ground (arith, lookup-Known d c p h.1)

  climb-Known :
      (room : ℕ) (root name : String) (d : Dict String String) (at : String)
      (later path : List String)
      → ChildrenKnown d
      → All Known later
      → climb room root name d at later ≡ ok path
      → All Known (drop 1 path)
  unfolding climb
  climb-Known zero root name d at later path ks hs e = elim (Bool-cases (at == root)) [
    | inl top ↦
        let same : at ∷ later ≡ path = ground arith in subst (λ l. All Known (drop 1 l)) same hs
    | inr below ↦ absurd (ground arith)
  ]
  climb-Known (suc room) root name d at later path ks hs e = elim (Bool-cases (at == root)) [
    | inl top ↦
        let same : at ∷ later ≡ path = ground arith in subst (λ l. All Known (drop 1 l)) same hs
    | inr below ↦ elim (Option-cases (lookup at d)) [
      | inl orphan ↦ absurd (ground arith)
      | inr (p, found) ↦
          climb-Known room root name d p (at ∷ later) path ks (lookup-Known d at p ks found, hs)
            (ground arith)
    ]
  ]

-- Every child of an edge has a node.
abbrev pub IsClosed : Team → Type 0
IsClosed t = EdgesKnown t.nodes t.edges

insert-Known :
    (nodes : Dict String AgentNode) (k name : String) (n : AgentNode)
    → Known nodes name
    → Known (insert k n nodes) name
unfolding has_key
insert-Known nodes k name n h = ground (arith, lookup-insert k name n nodes)

insert-All-Known :
    (nodes : Dict String AgentNode) (k : String) (n : AgentNode) (names : List String)
    → All (Known nodes) names
    → All (Known (insert k n nodes)) names
insert-All-Known nodes k n [] h = tt
insert-All-Known nodes k n (x ∷ names) h =
    (insert-Known nodes k x n h.0, insert-All-Known nodes k n names h.1)

insert-EdgesKnown_nodes :
    (nodes : Dict String AgentNode) (k : String) (n : AgentNode) (edges : Dict String (List String))
    → EdgesKnown nodes edges
    → EdgesKnown (insert k n nodes) edges
insert-EdgesKnown_nodes nodes k n [] h = tt
insert-EdgesKnown_nodes nodes k n ((p, cs) ∷ edges) h =
    (insert-All-Known nodes k n cs h.0, insert-EdgesKnown_nodes nodes k n edges h.1)

insert-EdgesKnown :
    (nodes : Dict String AgentNode) (parent : String) (cs : List String)
    (edges : Dict String (List String))
    → All (Known nodes) cs
    → EdgesKnown nodes edges
    → EdgesKnown nodes (insert parent cs edges)
unfolding insert
insert-EdgesKnown nodes parent cs [] k h = (k, tt)
insert-EdgesKnown nodes parent cs ((p, ds) ∷ edges) k h = elim (Bool-cases (p == parent)) [
  | inl same ↦ rw same (k, h.1)
  | inr other ↦ rw other (h.0, insert-EdgesKnown nodes parent cs edges k h.1)
]

lookup-EdgesKnown :
    (nodes : Dict String AgentNode) (parent child : String) (edges : Dict String (List String))
    → EdgesKnown nodes edges
    → Known nodes child
    → All (Known nodes) (append_child (lookup parent edges) child)
unfolding lookup
lookup-EdgesKnown nodes parent child [] h k = (k, tt)
lookup-EdgesKnown nodes parent child ((p, ds) ∷ edges) h k = elim (Bool-cases (p == parent)) [
  | inl same ↦ rw same (All-append (Known nodes) ds (child ∷ []) h.0 (k, tt))
  | inr other ↦ rw other (lookup-EdgesKnown nodes parent child edges h.1 k)
]

has_key-insert :
    (k : String) (n : AgentNode) (nodes : Dict String AgentNode) → Known (insert k n nodes) k
unfolding has_key
has_key-insert k n nodes = ground (arith, lookup-insert_self k n nodes)

-- `add` keeps every child a node.
add-IsClosed :
    (t : Team) (parent : String) (child : AgentNode) (u : Team)
    → IsClosed t
    → add t parent child ≡ ok u
    → IsClosed u
unfolding add
add-IsClosed t parent child u h e =
    elim (Bool-cases (not (has_key parent t.nodes) && not (parent == t.root.name))) [
      | inl refused ↦ absurd (ground arith)
      | inr allowed ↦
          let same : record t {
            nodes = insert child.name child t.nodes;
            edges = insert parent (append_child (lookup parent t.edges) child.name) t.edges;
          }
              ≡ u =
            ground arith in
          let kept : EdgesKnown (insert child.name child t.nodes) t.edges =
            insert-EdgesKnown_nodes t.nodes child.name child t.edges h in
          subst IsClosed same (
            insert-EdgesKnown (insert child.name child t.nodes) parent
              (append_child (lookup parent t.edges) child.name) t.edges
              (lookup-EdgesKnown (insert child.name child t.nodes) parent child.name t.edges kept
                (has_key-insert child.name child t.nodes))
              kept)
    ]

-- The teams that the program builds: a root alone, then `add` and `revoke` in any order.
pub data Built : Team → Type 0 where
  root_only :
      (root : AgentNode) (depth : ℕ)
      → Built (record { root = root; edges = []; nodes = []; max_depth = depth; revoked = [] })
  added :
      {t u : Team} (parent : String) (child : AgentNode)
      → Built t
      → add t parent child ≡ ok u
      → Built u
  revoked : {t : Team} (name : String) → Built t → Built (revoke t name)

Built-IsClosed : {t : Team} → Built t → IsClosed t
unfolding revoke
Built-IsClosed (root_only root depth) = tt
Built-IsClosed (added {t = t} {u = u} parent child b e) =
    add-IsClosed t parent child u (Built-IsClosed b) e
Built-IsClosed (revoked name b) = Built-IsClosed b

lift_denied-ne :
    (k : String) (r : Result Denied CapabilityManifest) → lift_denied r ≢ err (key_error k)
lift_denied-ne k (ok m) = ground arith
lift_denied-ne k (err d) = ground arith

module _ (os : Os) where
  attenuate_along-no_key_error :
      (t : Team) (start : CapabilityManifest) (path : List String) (k : String)
      → All (Known t.nodes) path
      → attenuate_along os t start path ≢ err (key_error k)
  unfolding attenuate_along node has_key
  attenuate_along-no_key_error t start [] k h e = ground arith
  attenuate_along-no_key_error t start (name ∷ path) k h e = elim (Result-cases (node t name)) [
    | inr (failure, failed) ↦ ground (arith, h.0)
    | inl (n, found) ↦ elim (Result-cases (lift_denied (attenuate os start n.manifest))) [
      | inr (failure, refused) ↦ ground (arith, lift_denied-ne k (attenuate os start n.manifest))
      | inl (next, kept) ↦ attenuate_along-no_key_error t next path k h.1 (ground arith)
    ]
  ]

  climb-no_key_error :
      (room : ℕ) (root name : String) (d : Dict String String) (at : String) (later : List String)
      (k : String)
      → climb room root name d at later ≢ err (key_error k)
  unfolding climb
  climb-no_key_error zero root name d at later k e = ground arith
  climb-no_key_error (suc room) root name d at later k e =
      grind (arith, climb-no_key_error room root name d)

  -- In a team that was built by `add` and `revoke` from a root alone, asking for an effective
  -- manifest never fails with the KeyError of an agent without a node.
  pub effective_manifest-no_key_error :
      {t : Team} (name k : String) → Built t → effective_manifest os t name ≢ err (key_error k)
  unfolding effective_manifest
  effective_manifest-no_key_error {t} name k b e = elim (Result-cases (path_to t name)) [
    | inr (failure, failed) ↦
        climb-no_key_error t.max_depth t.root.name name (parents_of t.edges []) name [] k
          (ground arith)
    | inl (path, found) ↦
        let known : All (Known t.nodes) (drop 1 path) =
          climb-Known t.nodes t.max_depth t.root.name name (parents_of t.edges []) name [] path
            (parents_of-ChildrenKnown t.nodes t.edges [] (Built-IsClosed b) tt) tt
            (unfold path_to in found) in
        attenuate_along-no_key_error t t.root.manifest (drop 1 path) k known (ground arith)
  ]
