-- ===== src/Team/Loading.antt =====
-- scr/team.py: the check of a child's manifest against its parent's when a team is loaded, the names of a
-- loaded team, and the recovery of every member's session.
use selfconnect_runtime.Base.{
  ℕ, ◌+◌, String, ◌≡◌, refl, Bool, true, false, ◌&&◌, none, some, List, [], ◌∷◌, arith,
  if◌then◌else◌, string_eq, contains, intersect, difference, contains-intersect,
  difference-nil_contains, length, Dict, lookup, has_key, Result, ok, err, ◌>>=◌, require_else,
}
use selfconnect_runtime.State.{Store, TeamRow, team_members}
use selfconnect_runtime.Kernel.{recover, RecoveryStatus}
use selfconnect_runtime.Capability.{Os, CapabilityManifest, roots_contained, attenuate}
use selfconnect_runtime.Orchestration.{Team}

pub data TeamLoadError : Type 0 where
  several_teams : ℕ → TeamLoadError
  no_team : String → TeamLoadError
  unknown_name : String → TeamLoadError
  widens_tools : String → TeamLoadError
  widens_net_hosts : String → TeamLoadError
  widens_read_roots : String → TeamLoadError
  widens_write_roots : String → TeamLoadError

-- `LoadedTeam`; the key of `teams` is the root of the team. `Spec` is what it keeps of an agent.
pub record LoadedTeam (Spec : Type 0) : Type 0 where
  pub specs : Dict String Spec
  pub teams : Dict String Team
  pub team_of : Dict String String
  pub aliases : Dict String String

-- `LoadedTeam.team`
unfoldable pub single_team : {Spec : Type 0} → LoadedTeam Spec → Result TeamLoadError Team
single_team loaded = elim loaded.teams [
  | [] ↦ err (several_teams 0)
  | t ∷ ts ↦ elim ts [ [] ↦ ok t.1 | u ∷ us ↦ err (several_teams (length us + 2)) ]
]

-- `team_for`, with the KeyError of a root that has no team as `no_team`
unfoldable pub team_for : {Spec : Type 0} → LoadedTeam Spec → String → Result TeamLoadError Team
unfolding lookup
team_for loaded name = elim (lookup name loaded.team_of) [
  | none ↦ err (no_team name)
  | some root ↦ elim (lookup root loaded.teams) [ none ↦ err (no_team root) | some t ↦ ok t ]
]

unfoldable pub entry_for : {Spec : Type 0} → LoadedTeam Spec → String → Result TeamLoadError String
unfolding lookup has_key
entry_for loaded name = elim (lookup name loaded.aliases) [
  | some root ↦ ok root
  | none ↦ if has_key name loaded.specs then ok name else err (unknown_name name)
]

abbrev pub is_empty_set : List String → Bool
is_empty_set [] = true
is_empty_set (x ∷ xs) = false

-- `set(xs) == set(ys)`
unfoldable pub same_set : List String → List String → Bool
unfolding difference
same_set xs ys = is_empty_set (difference xs ys) && is_empty_set (difference ys xs)

module _ (os : Os) where
  -- `_reject_widening`
  unfoldable pub reject_widening :
      String → CapabilityManifest → CapabilityManifest → Result TeamLoadError (Unit {0})
  unfolding difference same_set roots_contained
  reject_widening child pm cm = do
    _ ← require_else (is_empty_set (difference cm.tools pm.tools)) (widens_tools child)
    _ ← require_else (is_empty_set (difference cm.net_hosts pm.net_hosts)) (widens_net_hosts child)
    _ ←
        require_else
          (same_set (roots_contained os cm.fs_read_roots pm.fs_read_roots) cm.fs_read_roots)
          (widens_read_roots child)
    require_else
        (same_set (roots_contained os cm.fs_write_roots pm.fs_write_roots) cm.fs_write_roots)
        (widens_write_roots child)

pub record MemberReport : Type 0 where
  pub agent : String
  pub session : String
  pub depth : ℕ
  pub status : RecoveryStatus

-- The loop of `team_recover`
unfoldable pub recover_members : Store → List TeamRow → Store × List MemberReport
unfolding recover
recover_members s [] = (s, [])
recover_members s (m ∷ ms) =
    let (t, found) = recover m.session_id s in
    let (u, reports) = recover_members t ms in
    (
      u,
      record { agent = m.agent; session = m.session_id; depth = m.depth; status = found } ∷ reports,
    )

unfoldable pub team_recover : Store → String → Store × List MemberReport
unfolding recover_members team_members
team_recover s team_id = recover_members s (team_members s team_id)

empty-difference :
    (s t : List String) (a : String)
    → is_empty_set (difference s t) ≡ true
    → contains s a ≡ true
    → contains t a ≡ true
empty-difference s t a h m = difference-nil_contains s t a (empty (difference s t) h) m
  where
    empty : (xs : List String) → is_empty_set xs ≡ true → xs ≡ []
    empty [] e = refl
    empty (x ∷ xs) e = ground (arith, e)

module _ (os : Os) where
  -- The manifest `eff` has the tools and hosts of the child's, and its roots. Exec rules, the budget and
  -- the ceiling are not compared.
  pub record KeepsToolsHostsRoots (child eff : CapabilityManifest) : Type 0 where
    pub tools : (a : String) → contains eff.tools a ≡ contains child.tools a
    pub net_hosts : (a : String) → contains eff.net_hosts a ≡ contains child.net_hosts a
    pub fs_read_roots :
        (a : String) → contains child.fs_read_roots a ≡ true → contains eff.fs_read_roots a ≡ true
    pub fs_write_roots :
        (a : String) → contains child.fs_write_roots a ≡ true → contains eff.fs_write_roots a ≡ true

  kept-intersect :
      (s t : List String) (a : String)
      → is_empty_set (difference s t) ≡ true
      → contains (intersect s t) a ≡ contains s a
  kept-intersect s t a h = ground (arith, contains-intersect s t a, empty-difference s t a h)

  attenuate-parts :
      (pm cm eff : CapabilityManifest)
      → attenuate os pm cm ≡ ok eff
      → (eff.tools ≡ intersect cm.tools pm.tools)
        × (eff.net_hosts ≡ intersect cm.net_hosts pm.net_hosts)
        × (eff.fs_read_roots ≡ roots_contained os cm.fs_read_roots pm.fs_read_roots)
        × (eff.fs_write_roots ≡ roots_contained os cm.fs_write_roots pm.fs_write_roots)
  unfolding attenuate
  attenuate-parts pm cm eff h =
      (ground (arith, h), ground (arith, h), ground (arith, h), ground (arith, h))

  reject_widening-tests :
      (child : String) (pm cm : CapabilityManifest)
      → reject_widening os child pm cm ≡ ok tt
      → (is_empty_set (difference cm.tools pm.tools) ≡ true)
        × (is_empty_set (difference cm.net_hosts pm.net_hosts) ≡ true)
        × (is_empty_set
              (difference cm.fs_read_roots (roots_contained os cm.fs_read_roots pm.fs_read_roots))
            ≡ true)
        × (is_empty_set (
              difference cm.fs_write_roots (roots_contained os cm.fs_write_roots pm.fs_write_roots))
            ≡ true)
  unfolding reject_widening same_set
  reject_widening-tests child pm cm h =
      (ground (arith, h), ground (arith, h), ground (arith, h), ground (arith, h))

  -- A child that is not rejected as widening its parent keeps its tools, its hosts and its roots when
  -- its manifest is attenuated by its parent's. Nothing is said of its exec rules, its budget and its
  -- ceiling, which the check does not look at.
  pub reject_widening-attenuate :
      (child : String) (pm cm eff : CapabilityManifest)
      → reject_widening os child pm cm ≡ ok tt
      → attenuate os pm cm ≡ ok eff
      → KeepsToolsHostsRoots cm eff
  reject_widening-attenuate child pm cm eff accepted bounded =
      let (tools, hosts, reads, writes) = attenuate-parts pm cm eff bounded in
      let (t, n, r, w) = reject_widening-tests child pm cm accepted in
      record {
        tools = λ a. rw tools (kept-intersect cm.tools pm.tools a t);
        net_hosts = λ a. rw hosts (kept-intersect cm.net_hosts pm.net_hosts a n);
        fs_read_roots = λ a m. rw reads (empty-difference cm.fs_read_roots _ a r m);
        fs_write_roots = λ a m. rw writes (empty-difference cm.fs_write_roots _ a w m);
      }
