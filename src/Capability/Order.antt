-- ===== src/Capability/Order.antt =====
-- When one manifest permits no more than another, check by check.
use selfconnect_runtime.Base.{◌≤◌, String, ◌≡◌, Bool, Option, List, arith, string_eq, ok}
use selfconnect_runtime.Capability.Path.{FilePath, Os}
use selfconnect_runtime.Capability.Manifest.{
  CapabilityManifest, check_tool, check_net, check_classification, check_read, check_write,
  check_exec,
}

-- Whatever `m` permits, `m'` permits with the same result, and `m` has no larger budget.
pub record AtMost (os : Os) (m m' : CapabilityManifest) : Type 0 where
  pub tool : (name : String) → check_tool m name ≡ ok tt → check_tool m' name ≡ ok tt
  pub net : (host : String) → check_net m host ≡ ok tt → check_net m' host ≡ ok tt
  pub exec :
      (binary : String) (args : List String)
      → check_exec os m binary args ≡ ok tt
      → check_exec os m' binary args ≡ ok tt
  pub read :
      (path : String) (windows : Option Bool) (p : FilePath)
      → check_read os m path windows ≡ ok p
      → check_read os m' path windows ≡ ok p
  pub write :
      (path : String) (windows : Option Bool) (p : FilePath)
      → check_write os m path windows ≡ ok p
      → check_write os m' path windows ≡ ok p
  pub level :
      (level : String)
      → check_classification m level ≡ ok tt
      → check_classification m' level ≡ ok tt
  pub budget : m.max_budget_usd ≤ m'.max_budget_usd

module _ (os : Os) where
  pub AtMost-refl : (m : CapabilityManifest) → AtMost os m m
  AtMost-refl m = record {
    tool = λ _ h. h;
    net = λ _ h. h;
    exec = λ _ _ h. h;
    read = λ _ _ _ h. h;
    write = λ _ _ _ h. h;
    level = λ _ h. h;
    budget = omega arith;
  }

  pub AtMost-trans : (a b c : CapabilityManifest) → AtMost os a b → AtMost os b c → AtMost os a c
  AtMost-trans a b c h k = record {
    tool = λ n e. k.tool n (h.tool n e);
    net = λ n e. k.net n (h.net n e);
    exec = λ n xs e. k.exec n xs (h.exec n xs e);
    read = λ n w p e. k.read n w p (h.read n w p e);
    write = λ n w p e. k.write n w p (h.write n w p e);
    level = λ n e. k.level n (h.level n e);
    budget = omega (arith, h.budget, k.budget);
  }
