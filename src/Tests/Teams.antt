-- ===== src/Tests/Teams.antt =====
-- The `delegate` tool and the loading of a team at concrete inputs.
use selfconnect_runtime.Base.{
  ℕ, ◌+◌, ◌≡◌, refl, true, false, some, [], ◌∷◌, string_eq, intersect, filter, any, ok,
}
use selfconnect_runtime.State.{completed, empty_store}
use selfconnect_runtime.Kernel.{World}
use selfconnect_runtime.Kernel.Events.{cap_denied}
use selfconnect_runtime.Capability.{CapabilityManifest, attenuate}
use selfconnect_runtime.Team.{Desk, Desks, ChildRun, conclude_child, delegate_fn}
use selfconnect_runtime.Team.Finalizing.{fresh_desk}
use selfconnect_runtime.Team.Loading.{
  KeepsToolsHostsRoots, reject_widening, reject_widening-attenuate,
}
use selfconnect_runtime.Tests.Data.{posix, parent_manifest}
use selfconnect_runtime.Tests.Access.{pair}

-- The desk of "chief", whose child answers "done" and adds one to the world.
abbrev desks : Desks ℕ
desks = record {
  parent = "chief";
  team_id = "team";
  depth = 0;
  max_depth = 4;
  policy = record {
    required_children = "helper" ∷ [];
    max_delegations_per_child = some 2;
    no_redelegate_after_denial = true;
    require_nonempty_result = true;
  };
  sha256 = λ s. s;
  eff_hash = λ m. "hash";
  stopped_text = λ child reason. "CHILD STOPPED";
  strip = λ s. s;
  cancelled = λ w. false;
  run_child = λ child task w. (
    some (record { final_text = "done"; stopped_reason = completed; events = [] }),
    record w { world = w.world + 1 },
  );
}

abbrev fresh_world : World ℕ
fresh_world = record { store = empty_store; world = 0 }

abbrev answered : Desk ℕ
answered = (delegate_fn desks posix pair "helper" "look" (fresh_desk fresh_world)).1

abbrev denied_run : ChildRun
denied_run = record {
  final_text = "";
  stopped_reason = completed;
  events = cap_denied "read" "no" ∷ [];
}

abbrev after_denial : Desk ℕ
after_denial =
    (conclude_child desks "helper" "look" (fresh_desk fresh_world) (some denied_run, fresh_world)).1

abbrev asked_again : Desk ℕ
asked_again = (delegate_fn desks posix pair "helper" "look" after_denial).1

abbrev narrow_manifest : CapabilityManifest
narrow_manifest = record parent_manifest { tools = "read" ∷ [] }

narrow_accepted : reject_widening posix "helper" parent_manifest narrow_manifest ≡ ok tt
unfolding reject_widening string_eq filter any selfconnect_runtime.Capability.is_under
narrow_accepted = refl

narrow_attenuated : attenuate posix parent_manifest narrow_manifest ≡ ok narrow_manifest
unfolding attenuate string_eq selfconnect_runtime.Capability.lower_ceiling
    selfconnect_runtime.Capability.classification_rank intersect
    selfconnect_runtime.Capability.roots_contained filter any
    selfconnect_runtime.Capability.is_under
narrow_attenuated = refl

reject_widening-attenuate_example : KeepsToolsHostsRoots posix narrow_manifest narrow_manifest
reject_widening-attenuate_example =
    reject_widening-attenuate posix "helper" parent_manifest narrow_manifest narrow_manifest
      narrow_accepted narrow_attenuated
