-- ===== src/Capability/Manifest.antt =====
-- scr/capability.py: `CapabilityManifest` with its checks, and `attenuate`.
-- A budget in dollars is a number of some fixed small unit: the code only compares budgets.
use selfconnect_runtime.Base.{
  ℕ, min, String, Bool, true, false, not, ◌&&◌, Option, List, [], ◌∷◌, any, filter, leb, ltb,
  contains, intersect, ◌==◌, string_eq, if◌then◌else◌, Result, ok, err, ◌>>=◌, require_else, ◌<>◌,
}
use selfconnect_runtime.Capability.Path.{
  Denied, unknown_level, tool_not_permitted, no_read_capability, no_write_capability,
  host_not_permitted, exec_not_permitted, exceeds_ceiling, FilePath, Os, is_under, resolve_within,
}

-- `_CLASS_ORDER`, read by `classification_rank`.
unfoldable pub classification_rank : String → Result Denied ℕ
classification_rank level =
    if level == "public"
    then ok 0
    else if level == "internal"
    then ok 1
    else if level == "confidential"
    then ok 2
    else if level == "secret"
    then ok 3
    else err (unknown_level level)

pub record ExecRule : Type 0 where
  pub binary : String
  pub arg_pattern : String

-- `" ".join(args)`
unfoldable pub join_args : List String → String
join_args [] = ""
join_args (a ∷ []) = a
join_args (a ∷ b ∷ rest) = a <> (" " <> join_args (b ∷ rest))

pub record CapabilityManifest : Type 0 where
  pub tools : List String
  pub fs_read_roots : List String
  pub fs_write_roots : List String
  pub net_hosts : List String
  pub exec_rules : List ExecRule
  pub max_budget_usd : ℕ
  pub classification_ceiling : String

unfoldable pub check_tool : CapabilityManifest → String → Result Denied (Unit {0})
check_tool m name = require_else (contains m.tools name) (tool_not_permitted name)

unfoldable pub check_net : CapabilityManifest → String → Result Denied (Unit {0})
check_net m host = require_else (contains m.net_hosts host) (host_not_permitted host)

unfoldable pub check_classification : CapabilityManifest → String → Result Denied (Unit {0})
check_classification m level = do
  rank ← classification_rank level
  ceiling ← classification_rank m.classification_ceiling
  require_else (leb rank ceiling) (exceeds_ceiling level m.classification_ceiling)

abbrev pub is_empty : List String → Bool
is_empty [] = true
is_empty (x ∷ xs) = false

-- Both rules name one binary and one pattern.
unfoldable pub same_rule : ExecRule → ExecRule → Bool
same_rule r s = r.binary == s.binary && r.arg_pattern == s.arg_pattern

-- The lower ranked of two ceilings; an unknown one raises.
unfoldable pub lower_ceiling : String → String → Result Denied String
lower_ceiling parent child = do
  p ← classification_rank parent
  c ← classification_rank child
  ok (if ltb c p then child else parent)

module _ (os : Os) where
  unfoldable pub allows : ExecRule → String → List String → Bool
  allows rule binary args =
      if not (binary == rule.binary) then false else os.fullmatch rule.arg_pattern (join_args args)

  unfoldable pub check_read : CapabilityManifest → String → Option Bool → Result Denied FilePath
  check_read m path windows =
      if is_empty m.fs_read_roots
      then err no_read_capability
      else resolve_within os path m.fs_read_roots windows

  unfoldable pub check_write : CapabilityManifest → String → Option Bool → Result Denied FilePath
  check_write m path windows =
      if is_empty m.fs_write_roots
      then err no_write_capability
      else resolve_within os path m.fs_write_roots windows

  unfoldable pub check_exec : CapabilityManifest → String → List String → Result Denied (Unit {0})
  check_exec m binary args =
      require_else (any (λ rule. allows rule binary args) m.exec_rules)
        (exec_not_permitted binary args)

  -- `_roots_contained`
  unfoldable pub roots_contained : List String → List String → List String
  roots_contained child_roots parent_roots =
      filter (λ c. any (λ p. is_under (os.realpath c) (os.realpath p)) parent_roots) child_roots

  unfoldable pub attenuate :
      CapabilityManifest → CapabilityManifest → Result Denied CapabilityManifest
  attenuate parent child = do
    ceiling ← lower_ceiling parent.classification_ceiling child.classification_ceiling
    ok (record {
      tools = intersect child.tools parent.tools;
      fs_read_roots = roots_contained child.fs_read_roots parent.fs_read_roots;
      fs_write_roots = roots_contained child.fs_write_roots parent.fs_write_roots;
      net_hosts = intersect child.net_hosts parent.net_hosts;
      exec_rules = filter (λ r. any (same_rule r) parent.exec_rules) child.exec_rules;
      max_budget_usd = min child.max_budget_usd parent.max_budget_usd;
      classification_ceiling = ceiling;
    })
