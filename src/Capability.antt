-- ===== src/Capability.antt =====
-- scr/capability.py: manifests, the checks of the capability kernel, and attenuation. What the
-- code asks of the operating system and of `re` is the parameter `Os`.
mod Path
mod Manifest
pub mod Paths
pub mod Order
pub mod Attenuation
pub mod Containment
pub mod Levels
unfoldable pub use Path.*
unfoldable pub use Manifest.*
