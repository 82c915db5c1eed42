-- ===== src/Tests/Access.antt =====
-- Capabilities, policies and delegation at concrete inputs.
use selfconnect_runtime.Base.{
  String, ◌≡◌, refl, subst, ◌≢◌, true, false, none, some, List, [], ◌∷◌, if◌then◌else◌, string_eq,
  ◌==◌, contains, intersect, difference, get_last?, filter, any, All, Some, ok, err,
}
use selfconnect_runtime.Capability.{
  FilePath, CapabilityManifest, check_read, check_write, check_classification, attenuate, codes,
  reject_ads, is_under,
}
use selfconnect_runtime.Capability.Order.{AtMost}
use selfconnect_runtime.Capability.Attenuation.{attenuate-AtMost}
use selfconnect_runtime.Capability.Containment.{Below, check_write-Below}
use selfconnect_runtime.Capability.Paths.{is_under_trans}
use selfconnect_runtime.Policy.{tighten}
use selfconnect_runtime.Policy.Tightening.{tighten-AtMost, tighten-raises_ceiling}
use selfconnect_runtime.Orchestration.{
  Team, AgentNode, revoke, path_to, effective_manifest, severed,
}
use selfconnect_runtime.Orchestration.Delegation.{BoundedBy, effective_manifest-BoundedBy}
use selfconnect_runtime.Orchestration.Severing.{effective_manifest-revoke}
use selfconnect_runtime.Tests.Data.{posix, parent_manifest, child_manifest, cautious}

abbrev data_file : FilePath
data_file = record { drive = ""; parts = "data" ∷ "a" ∷ [] }

abbrev data_dir : FilePath
data_dir = record { drive = ""; parts = "data" ∷ [] }

write_given : check_write posix parent_manifest "/data/a" none ≡ ok data_file
unfolding check_write selfconnect_runtime.Capability.resolve_within reject_ads any is_under
    string_eq
write_given = refl

check_write-Below_example :
    (data_file ≡ posix.realpath "/data/a")
    × Some (λ r. Below data_file (posix.realpath r)) ("/data" ∷ [])
check_write-Below_example =
    check_write-Below posix parent_manifest "/data/a" none data_file write_given

is_under_trans_example : is_under data_file (record { drive = ""; parts = [] }) ≡ true
unfolding string_eq
is_under_trans_example =
    is_under_trans data_file data_dir (record { drive = ""; parts = [] }) (unfold is_under in refl)
      (unfold is_under in refl)

abbrev effective : CapabilityManifest
effective = record parent_manifest { tools = "bump" ∷ [] }

attenuated : attenuate posix parent_manifest child_manifest ≡ ok effective
unfolding attenuate selfconnect_runtime.Capability.lower_ceiling
    selfconnect_runtime.Capability.classification_rank string_eq intersect
    selfconnect_runtime.Capability.roots_contained filter any is_under
attenuated = refl

attenuate-AtMost_example :
    AtMost posix effective parent_manifest × AtMost posix effective child_manifest
attenuate-AtMost_example =
    attenuate-AtMost posix parent_manifest child_manifest effective attenuated

abbrev secret_manifest : CapabilityManifest
secret_manifest = record parent_manifest { classification_ceiling = "secret" }

abbrev tightened_manifest : CapabilityManifest
tightened_manifest = record secret_manifest { tools = "bump" ∷ [] }

tightened_secret : tighten cautious secret_manifest ≡ ok tightened_manifest
unfolding tighten difference string_eq intersect
tightened_secret = refl

tightened_internal : tighten cautious parent_manifest ≡ ok tightened_manifest
unfolding tighten difference string_eq intersect
tightened_internal = refl

tighten-AtMost_example : AtMost posix tightened_manifest secret_manifest
tighten-AtMost_example =
    tighten-AtMost posix cautious secret_manifest tightened_manifest refl tightened_secret

internal_differs : parent_manifest.classification_ceiling ≢ "secret"
unfolding string_eq
internal_differs e = subst (λ (s : String). if s == "secret" then ⊥ else Unit {0}) e tt

tighten-raises_ceiling_example :
    (check_classification tightened_manifest "secret" ≡ ok tt)
    × (check_classification parent_manifest "secret" ≢ ok tt)
tighten-raises_ceiling_example =
    tighten-raises_ceiling cautious parent_manifest tightened_manifest internal_differs
      tightened_internal

abbrev chief : AgentNode
chief = record { name = "chief"; manifest = parent_manifest }

abbrev helper : AgentNode
helper = record { name = "helper"; manifest = child_manifest }

abbrev alone : Team
alone = record { root = chief; edges = []; nodes = []; max_depth = 8; revoked = [] }

abbrev pub pair : Team
pair = record alone { edges = ("chief", "helper" ∷ []) ∷ []; nodes = ("helper", helper) ∷ [] }

helper_manifest : effective_manifest posix pair "helper" ≡ ok effective
unfolding effective_manifest string_eq any attenuate selfconnect_runtime.Capability.lower_ceiling
    selfconnect_runtime.Capability.classification_rank intersect
    selfconnect_runtime.Capability.roots_contained filter is_under
helper_manifest = refl

helper_path : path_to pair "helper" ≡ ok ("chief" ∷ "helper" ∷ [])
unfolding path_to string_eq
helper_path = refl

effective_manifest-BoundedBy_example :
    (rest : List String) × (path_to pair "helper" ≡ ok ("chief" ∷ rest))
    × (get_last? ("chief" ∷ rest) ≡ some "helper")
    × (any (contains []) ("chief" ∷ rest) ≡ false)
    × All (BoundedBy posix pair effective) ("chief" ∷ rest)
effective_manifest-BoundedBy_example =
    effective_manifest-BoundedBy posix pair "helper" effective helper_manifest

effective_manifest-revoke_example :
    effective_manifest posix (revoke pair "chief") "helper" ≡ err (severed "helper")
unfolding string_eq
effective_manifest-revoke_example =
    effective_manifest-revoke posix pair "chief" "helper" ("chief" ∷ "helper" ∷ []) helper_path
