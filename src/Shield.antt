-- ===== src/Shield.antt =====
-- shield/: the Decision Safety Shield.
pub mod Certificate
pub mod Action
pub mod Dispose
pub mod Soundness
pub mod Complete
pub mod Total
pub mod Mild
pub mod Contained
pub mod Feasible
pub mod Numeric
pub mod Spectrum
pub mod Phy
pub mod Constellation
pub mod Chain
pub mod Physics
pub mod Terrestrial
pub mod Ntn
pub mod Orbital
