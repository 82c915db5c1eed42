-- ===== src/Orchestration/Severing.antt =====
-- Revocation: an agent is severed exactly when its own path meets a revoked agent, and a severed
-- agent has no effective manifest.
use selfconnect_runtime.Base.{
  String, ◌≡◌, refl, inl, inr, ◌||◌, List, [], ◌∷◌, arith, if◌then◌else◌, string_eq, contains, drop,
  any, ok, err, Result-cases,
}
use selfconnect_runtime.Capability.{Os, CapabilityManifest, attenuate}
use selfconnect_runtime.Orchestration.{
  severed, node, lift_denied, Team, revoke, path_to, attenuate_along, effective_manifest,
}

any-revoked :
    (name : String) (revoked path : List String)
    → any (contains (name ∷ revoked)) path ≡ (contains path name || any (contains revoked) path)
unfolding any
any-revoked name revoked [] = refl
any-revoked name revoked (x ∷ path) = ground (arith, any-revoked name revoked path)

attenuate_along-revoke :
    (os : Os) (t : Team) (revoked : String) (start : CapabilityManifest) (path : List String)
    → attenuate_along os (revoke t revoked) start path ≡ attenuate_along os t start path
unfolding attenuate_along revoke
attenuate_along-revoke os t revoked start [] = refl
attenuate_along-revoke os t revoked start (name ∷ path) = elim (Result-cases (node t name)) [
  | inr (e, failed) ↦ ground arith
  | inl (n, found) ↦ elim (Result-cases (lift_denied (attenuate os start n.manifest))) [
    | inr (e, refused) ↦ ground arith
    | inl (next, kept) ↦ ground (arith, attenuate_along-revoke os t revoked next path)
  ]
]

-- After `revoke`, every agent whose path passes the revoked agent is refused, whoever else was
-- revoked before, and an agent whose path does not pass it has the manifest that it had.
pub effective_manifest-revoke :
    (os : Os) (t : Team) (revoked name : String) (path : List String)
    → path_to t name ≡ ok path
    → effective_manifest os (revoke t revoked) name
      ≡ (if contains path revoked then err (severed name) else effective_manifest os t name)
unfolding effective_manifest revoke
effective_manifest-revoke os t revoked name path found = ground (
  arith,
  any-revoked revoked t.revoked path,
  attenuate_along-revoke os t revoked t.root.manifest (drop 1 path),
)
