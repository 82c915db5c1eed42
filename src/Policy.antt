-- ===== src/Policy.antt =====
-- scr/policy.py: approval rules and the tightening of a manifest. The YAML loader is not modelled.
pub mod Tightening
use selfconnect_runtime.Base.{
  ℕ, zero, suc, ◌+◌, ◌-◌, ◌*◌, ◌/◌, ◌%◌, ◌≤◌, ◌<◌, min, max, String, ◌<>◌, ◌≡◌, refl, sym, ap, ◌∙◌,
  subst, ◌≢◌, ◌↔◌, ◌⊎◌, inl, inr, Bool, true, false, not, ◌&&◌, ◌||◌, Option, none, some, List, [],
  ◌∷◌, ◌++◌, map, arith, ltb, leb, eqb, if◌then◌else◌, Bool-cases, Option-cases, leb→le, ltb→lt,
  lt→ltb, Eq, string_eq, ◌==◌, contains, intersect, difference, ==_refl, contains-intersect,
  contains-difference, difference-nil_contains, length, get_last?, get_elem?, take, drop, filter,
  find, any, All, length-append, filter-append, get_last?-append_one, All-append, Some, Dict,
  lookup, insert, erase, has_key, lookup-insert, lookup-erase, lookup-insert_self, Result, ok, err,
  ◌>>=◌, ◌>>◌, require_else, Result-cases,
}
use selfconnect_runtime.Capability.{Os, CapabilityManifest}
use selfconnect_runtime.Gateway.{Json, null, ToolCall}

-- `PolicyError`
pub data PolicyError : Type 0 where
  widens_tools : List String → PolicyError
  widens_net_hosts : List String → PolicyError

pub record ApprovalRule : Type 0 where
  pub tool : String
  pub arg_match : List (String × String)

pub record Policy : Type 0 where
  pub approval_rules : List ApprovalRule
  pub tighten_tools : Option (List String)
  pub tighten_net_hosts : Option (List String)

-- `str(value)` of an argument, which Python prints, is a parameter beside `re.search` of `Os`.
module _ (os : Os) (str : Json → String) where
  -- One pair of `arg_match`; a missing value and a JSON null are both `None`.
  unfoldable pub arg_matches : Option Json → String → Bool
  arg_matches none pattern = false
  arg_matches (some null) pattern = false
  arg_matches (some val) pattern = os.search_in pattern (str val)

  unfoldable pub args_match : ToolCall → List (String × String) → Bool
  unfolding arg_matches lookup
  args_match call [] = true
  args_match call ((name, pattern) ∷ rest) =
      arg_matches (lookup name call.arguments) pattern && args_match call rest

  -- `ApprovalRule.matches`
  unfoldable pub matches : ApprovalRule → ToolCall → Bool
  unfolding args_match
  matches rule call =
      if not (rule.tool == "*") && not (rule.tool == call.name)
      then false
      else args_match call rule.arg_match

  unfoldable pub requires_approval : Policy → ToolCall → Bool
  unfolding matches any
  requires_approval p call = any (λ rule. matches rule call) p.approval_rules

-- `self.tighten_tools - base.tools`, and an error if anything is left.
unfoldable pub reject_extra :
    Option (List String) → List String → (List String → PolicyError) → Result PolicyError (Unit {0})
reject_extra none granted e = ok tt
reject_extra (some wanted) granted e = elim (difference wanted granted) [
  | [] ↦ ok tt
  | x ∷ extra ↦ err (e (x ∷ extra))
]

unfoldable pub validate_tightening : Policy → CapabilityManifest → Result PolicyError (Unit {0})
unfolding reject_extra
validate_tightening p base = do
  reject_extra p.tighten_tools base.tools widens_tools
  reject_extra p.tighten_net_hosts base.net_hosts widens_net_hosts

unfoldable pub restrict : List String → Option (List String) → List String
restrict granted none = granted
restrict granted (some wanted) = intersect granted wanted

-- The new manifest. It is built without a ceiling, so it has the dataclass's default.
abbrev pub tightened : Policy → CapabilityManifest → CapabilityManifest
tightened p base = record {
  tools = restrict base.tools p.tighten_tools;
  fs_read_roots = base.fs_read_roots;
  fs_write_roots = base.fs_write_roots;
  net_hosts = restrict base.net_hosts p.tighten_net_hosts;
  exec_rules = base.exec_rules;
  max_budget_usd = base.max_budget_usd;
  classification_ceiling = "secret";
}

unfoldable pub tighten : Policy → CapabilityManifest → Result PolicyError CapabilityManifest
unfolding validate_tightening restrict
tighten p base = do validate_tightening p base; ok (tightened p base)
