-- ===== src/Kernel.antt =====
-- scr/kernel.py: the journaled agent loop, tool execution with its guards, and crash recovery.
pub mod Events
mod Env
mod Monad
mod Text
mod Context
mod Execute
mod Loop
mod Recover
pub mod Recovery
pub mod Crashes
pub mod Preserves
pub mod Confinement
pub mod Confined
pub mod Results
pub mod Pending
pub mod Evolution
pub mod Runs
pub mod Effects
pub mod Growth
pub use Events.*
pub use Env.*
unfoldable pub use Monad.*
unfoldable pub use Text.*
unfoldable pub use Context.*
unfoldable pub use Execute.*
unfoldable pub use Loop.*
unfoldable pub use Recover.*
