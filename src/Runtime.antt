-- ===== src/Runtime.antt =====
-- oox/oox.h, the task runtime.
pub mod Node
pub mod Result
pub mod Tags
pub mod Start
pub mod Life
pub mod ArcList
pub mod Output
pub mod Store
pub mod Dependence
pub mod Backend
pub mod Policy
