-- ===== src/Minicontainer.antt =====
-- minicontainer/: the container runtime.
pub mod Size
pub mod Config
pub mod Host
pub mod Cgroup
pub mod Container
pub mod Commands
pub mod Namespaces
mod Tests
