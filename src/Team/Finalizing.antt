-- ===== src/Team/Finalizing.antt =====
-- scr/team.py: the limits of the policy, and what an agent that may finalize has done.
use selfconnect_runtime.Base.{String, ◌≡◌, [], string_eq, Result}
use selfconnect_runtime.Kernel.{World}
use selfconnect_runtime.Capability.{Os}
use selfconnect_runtime.Orchestration.{Team}
use selfconnect_runtime.Team.{ToolError, Desk, Desks, Reply, delegate_fn}

abbrev pub fresh_desk : {W : Type 0} → World W → Desk W
fresh_desk w = record { world = w; log = []; count = []; finished = []; failed = [] }

module _ {W : Type 0} (k : Desks W) (os : Os) where
  -- Calls of the tool, from a desk on, with any change of the world by others in between; the team may
  -- change, as agents are revoked.
  pub data Later (desk : Desk W) : Desk W → Type 0 where
    same : Later desk desk
    called :
        {mid next : Desk W} (team : Team) (child subtask : String) (answer : Result ToolError Reply)
        → Later desk mid
        → delegate_fn k os team child subtask mid ≡ (answer, next)
        → Later desk next
    elsewhere :
        {mid : Desk W} (w : World W) → Later desk mid → Later desk (record mid { world = w })
