-- ===== src/Evidence/Sessions.antt =====
-- The kernel, the ledger and the evidence together: a run that is sealed and exported.
use selfconnect_runtime.Base.{String, ◌≡◌, true, Option, string_eq, ok}
use selfconnect_runtime.Gateway.{Json}
use selfconnect_runtime.State.Numbering.{IsNumbered}
use selfconnect_runtime.Ledger
use selfconnect_runtime.Ledger.Chain.{IsChained}
use selfconnect_runtime.Kernel.{World, Kernel}
use selfconnect_runtime.Kernel.Growth.{after_run, run-IsChained}
use selfconnect_runtime.Evidence.Verifier.{Documents}
use selfconnect_runtime.Evidence.Bundles.{export_bundle, verify_bundle}
use selfconnect_runtime.Evidence.Exports.{IsFaithful, verify_bundle-export}

-- For a kernel whose tools do not themselves write the store (so not for an agent with the `delegate`
-- tool), and whatever the model answers: the evidence of a session that ran in a store of numbered
-- journals and chained ledgers, and was then sealed and exported under a key, passes the offline
-- verifier under that key.
pub verify_bundle-run :
    {W Doc : Type 0} (k : Kernel W) (d : Documents Doc) (version session text key : String)
    (pkg : Option Json) (w : World W)
    → IsFaithful d
    → IsNumbered w.store
    → IsChained k.py.codec w.store
    → let t = (Ledger.seal k.py.codec (after_run k session text w) session key).0 in
      verify_bundle k.py.codec d version (export_bundle k.py.codec d version t session key pkg) key
      ≡ ok true
verify_bundle-run k d version session text key pkg w faithful numbered chained =
    (verify_bundle-export k.py.codec d version faithful (after_run k session text w) session key pkg
      (run-IsChained k session text w numbered chained).1).0
