-- ===== src/Evidence.antt =====
-- scr/evidence.py and scr/_evidence_verifier.py: evidence bundles of sessions and teams, and their
-- offline verification, which imports nothing of the runtime.
mod Verifier
mod Bundles
pub mod Chains
pub mod Exports
pub mod RoundTrip
pub mod Tampering
pub mod Sessions
unfoldable pub use Verifier.*
unfoldable pub use Bundles.*
