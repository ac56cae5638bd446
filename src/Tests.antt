-- ===== src/Tests.antt =====
-- Runs of the model at concrete inputs.
mod Shielding
mod Gates
mod Lifecycle
mod Records
mod Probes
mod Loop
mod Runtime
mod Access
mod Restarts
mod Orbit
