-- ===== src/Rbac/Ranks.antt =====
-- scr/rbac.py: who may do what.
use selfconnect_runtime.Base.{
  String, ◌≡◌, refl, ◌↔◌, true, Option, none, some, arith, string_eq, lookup, ok,
}
use selfconnect_runtime.Rbac.{permitted, require}

-- A subject passes `require` for an action exactly when it is authenticated with a role that the
-- matrix lists for the action: a role that is listed for an action is always a known one.
pub require-permitted :
    (role : Option String) (action : String)
    → (require role action ≡ ok tt) ↔ ((r : String) × (role ≡ some r) × (permitted r action ≡ true))
unfolding permitted require lookup
require-permitted none action = (λ e. ground arith, λ (r, e, p). ground (arith, e))
require-permitted (some role) action =
    (λ e. (role, refl, ground (arith, e)), λ (r, e, p). ground (arith, e, p))

-- The admin may do whatever any role may.
pub permitted-admin :
    (role action : String) → permitted role action ≡ true → permitted "admin" action ≡ true
unfolding permitted lookup
permitted-admin role action h = ground (arith, h)
