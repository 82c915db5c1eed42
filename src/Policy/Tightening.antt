-- ===== src/Policy/Tightening.antt =====
-- What tightening promises, and where it falls short.
use selfconnect_runtime.Base.{
  String, ◌≡◌, refl, ◌≢◌, ◌↔◌, inl, inr, true, Option, none, some, List, [], ◌∷◌, arith, string_eq,
  contains, difference, ==_refl, contains-intersect, difference-nil_contains, ok, Result-cases,
}
use selfconnect_runtime.Capability.{
  Os, CapabilityManifest, classification_rank, check_tool, check_net, check_read, check_write,
  check_exec, check_classification,
}
use selfconnect_runtime.Capability.Levels.{rank-secret, rank-lt_secret}
use selfconnect_runtime.Capability.Order.{AtMost}
use selfconnect_runtime.Policy.{
  Policy, PolicyError, widens_tools, widens_net_hosts, reject_extra, restrict, tightened, tighten,
}

-- Every name that the policy lists is granted by the base.
abbrev pub Within : Option (List String) → List String → Type 0
Within none granted = Unit
Within (some wanted) granted = (a : String) → contains wanted a ≡ true → contains granted a ≡ true

difference-eq_nil :
    (s t : List String)
    → ((a : String) → contains s a ≡ true → contains t a ≡ true)
    → difference s t ≡ []
unfolding difference
difference-eq_nil [] t h = refl
difference-eq_nil (x ∷ s) t h =
    ground (arith, h x, ==_refl x, difference-eq_nil s t (λ a m. h a (ground arith)))

reject_extra-Within :
    (wanted : Option (List String)) (granted : List String) (e : List String → PolicyError)
    → (reject_extra wanted granted e ≡ ok tt) ↔ Within wanted granted
unfolding reject_extra
reject_extra-Within none granted e = (λ h. tt, λ h. refl)
reject_extra-Within (some wanted) granted e = (
  λ h a m. ground (arith, difference-nil_contains wanted granted a),
  λ h. ground (arith, difference-eq_nil wanted granted h),
)

-- Tightening succeeds exactly when the policy names no tool and no host that the base lacks.
pub tighten-accepts :
    (p : Policy) (base : CapabilityManifest)
    → ((m : CapabilityManifest) × (tighten p base ≡ ok m))
      ↔ (Within p.tighten_tools base.tools × Within p.tighten_net_hosts base.net_hosts)
unfolding tighten
tighten-accepts p base = (
  λ (m, h). (
    (reject_extra-Within p.tighten_tools base.tools widens_tools).0 (ground arith),
    (reject_extra-Within p.tighten_net_hosts base.net_hosts widens_net_hosts).0 (ground arith),
  ),
  λ (h, k). (
    tightened p base,
    ground (
      arith,
      (reject_extra-Within p.tighten_tools base.tools widens_tools).1 h,
      (reject_extra-Within p.tighten_net_hosts base.net_hosts widens_net_hosts).1 k,
    ),
  ),
)

contains-restrict :
    (granted : List String) (wanted : Option (List String)) (a : String)
    → contains (restrict granted wanted) a ≡ true
    → contains granted a ≡ true
unfolding restrict
contains-restrict granted none a h = h
contains-restrict granted (some wanted) a h = ground (arith, contains-intersect granted wanted a)

-- Where the base has the ceiling "secret", which bars no level, the tightened manifest permits no
-- more than the base.
pub tighten-AtMost :
    (os : Os) (p : Policy) (base m : CapabilityManifest)
    → base.classification_ceiling ≡ "secret"
    → tighten p base ≡ ok m
    → AtMost os m base
unfolding tighten check_tool check_net check_read check_write check_exec check_classification
tighten-AtMost os p base m c h = record {
  tool = λ n k. ground (arith, contains-restrict base.tools p.tighten_tools n);
  net = λ n k. ground (arith, contains-restrict base.net_hosts p.tighten_net_hosts n);
  exec = λ n xs k. ground arith;
  read = λ n w q k. ground arith;
  write = λ n w q k. ground arith;
  level = λ n k. ground arith;
  budget = ground arith;
}

-- Where the ceiling of the base is not "secret", a policy that tightens the base yields a manifest
-- that permits the level "secret", which the base refuses.
pub tighten-raises_ceiling :
    (p : Policy) (base m : CapabilityManifest)
    → base.classification_ceiling ≢ "secret"
    → tighten p base ≡ ok m
    → (check_classification m "secret" ≡ ok tt) × (check_classification base "secret" ≢ ok tt)
unfolding tighten check_classification
tighten-raises_ceiling p base m c h = (
  ground (arith, rank-secret),
  λ k. elim (Result-cases (classification_rank base.classification_ceiling)) [
    | inl (r, e) ↦ ground (arith, rank-secret, rank-lt_secret base.classification_ceiling r c e)
    | inr (d, e) ↦ ground (arith, rank-secret)
  ],
)
