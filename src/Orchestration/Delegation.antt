-- ===== src/Orchestration/Delegation.antt =====
-- Delegation down a path only shrinks: the effective manifest permits no more than that of any agent
-- on the path.
use selfconnect_runtime.Base.{
  ℕ, zero, suc, String, ◌≡◌, subst, inl, inr, false, some, List, [], ◌∷◌, arith, Bool-cases,
  Option-cases, string_eq, ◌==◌, contains, get_last?, any, All, Dict, lookup, Result, ok, err,
  Result-cases,
}
use selfconnect_runtime.Capability.{Denied, Os, CapabilityManifest, attenuate}
use selfconnect_runtime.Capability.Order.{AtMost, AtMost-refl, AtMost-trans}
use selfconnect_runtime.Capability.Attenuation.{attenuate-AtMost}
use selfconnect_runtime.Orchestration.{
  Team, AgentNode, node, climb, path_to, parents_of, lift_denied, attenuate_along,
  effective_manifest,
}

node-root : (t : Team) → node t t.root.name ≡ ok t.root
unfolding node
node-root t = ground arith

module _ (os : Os) where
  -- `eff` permits no more than the manifest of the agent `name`.
  abbrev pub BoundedBy : Team → CapabilityManifest → String → Type 0
  BoundedBy t eff name = (n : AgentNode) → node t name ≡ ok n → AtMost os eff n.manifest

  lift_denied-ok :
      (r : Result Denied CapabilityManifest) (m : CapabilityManifest)
      → lift_denied r ≡ ok m
      → r ≡ ok m
  lift_denied-ok (ok a) m h = ground arith
  lift_denied-ok (err e) m h = ground arith

  attenuate_along-AtMost :
      (t : Team) (start : CapabilityManifest) (path : List String) (eff : CapabilityManifest)
      → attenuate_along os t start path ≡ ok eff
      → AtMost os eff start × All (BoundedBy t eff) path
  unfolding attenuate_along
  attenuate_along-AtMost t start [] eff h =
      (subst (λ m. AtMost os m start) (ground arith) (AtMost-refl os start), tt)
  attenuate_along-AtMost t start (name ∷ path) eff h = elim (Result-cases (node t name)) [
    | inr (e, failed) ↦ absurd (ground arith)
    | inl (n, found) ↦ elim (Result-cases (lift_denied (attenuate os start n.manifest))) [
      | inr (e, refused) ↦ absurd (ground arith)
      | inl (next, kept) ↦
          let rest : AtMost os eff next × All (BoundedBy t eff) path =
            attenuate_along-AtMost t next path eff (ground arith) in
          let step : AtMost os next start × AtMost os next n.manifest =
            attenuate-AtMost os start n.manifest next (lift_denied-ok _ next kept) in
          (
            AtMost-trans os eff next start rest.0 step.0,
            (
              λ n' found'.
                  let same : n.manifest ≡ n'.manifest = ground arith in
                  subst (λ m. AtMost os eff m) same
                    (AtMost-trans os eff next n.manifest rest.0 step.1),
              rest.1,
            ),
          )
    ]
  ]

  climb-root :
      (room : ℕ) (root name : String) (parent_of : Dict String String) (at : String)
      (later path : List String)
      → climb room root name parent_of at later ≡ ok path
      → (rest : List String) × (path ≡ root ∷ rest)
  unfolding climb
  climb-root zero root name parent_of at later path h = elim (Bool-cases (at == root)) [
    | inl top ↦ (later, ground arith)
    | inr below ↦ absurd (ground arith)
  ]
  climb-root (suc room) root name parent_of at later path h = elim (Bool-cases (at == root)) [
    | inl top ↦ (later, ground arith)
    | inr below ↦ elim (Option-cases (lookup at parent_of)) [
      | inl orphan ↦ absurd (ground arith)
      | inr (p, found) ↦ climb-root room root name parent_of p (at ∷ later) path (ground arith)
    ]
  ]

  climb-last :
      (room : ℕ) (root name : String) (parent_of : Dict String String) (at : String)
      (later path : List String)
      → climb room root name parent_of at later ≡ ok path
      → get_last? path ≡ get_last? (at ∷ later)
  unfolding climb
  climb-last zero root name parent_of at later path h = elim (Bool-cases (at == root)) [
    | inl top ↦ ground arith
    | inr below ↦ absurd (ground arith)
  ]
  climb-last (suc room) root name parent_of at later path h = elim (Bool-cases (at == root)) [
    | inl top ↦ ground arith
    | inr below ↦ elim (Option-cases (lookup at parent_of)) [
      | inl orphan ↦ absurd (ground arith)
      | inr (p, found) ↦ climb-last room root name parent_of p (at ∷ later) path (ground arith)
    ]
  ]

  -- Where an agent has an effective manifest, its delegation path runs from the root to the agent,
  -- no agent on the path is revoked, and the manifest permits no more than that of any agent on the
  -- path, the root's and the agent's own among them.
  pub effective_manifest-BoundedBy :
      (t : Team) (name : String) (eff : CapabilityManifest)
      → effective_manifest os t name ≡ ok eff
      → (rest : List String) × (path_to t name ≡ ok (t.root.name ∷ rest))
        × (get_last? (t.root.name ∷ rest) ≡ some name)
        × (any (contains t.revoked) (t.root.name ∷ rest) ≡ false)
        × All (BoundedBy t eff) (t.root.name ∷ rest)
  unfolding effective_manifest
  effective_manifest-BoundedBy t name eff h = elim (Result-cases (path_to t name)) [
    | inr (e, failed) ↦ absurd (ground arith)
    | inl (path, found) ↦
        let (rest, e) : (rest : List String) × (path ≡ t.root.name ∷ rest) =
          climb-root t.max_depth t.root.name name (parents_of t.edges []) name [] path
            (unfold path_to in found) in
        let bounded : AtMost os eff t.root.manifest × All (BoundedBy t eff) rest =
          attenuate_along-AtMost t t.root.manifest rest eff (ground arith) in
        (
          rest,
          ground arith,
          climb-last t.max_depth t.root.name name (parents_of t.edges []) name []
              (t.root.name ∷ rest) (ground arith),
          ground arith,
          (
            λ n found_root.
                let same : t.root.manifest ≡ n.manifest = ground (arith, node-root t) in
                subst (λ m. AtMost os eff m) same bounded.0,
            bounded.1,
          ),
        )
  ]
