-- ===== src/A1.antt =====
-- rapp/a1_adapter.py: the policies that go to the Near-RT RIC.
pub mod Json
pub mod Schema
pub mod Urls
pub mod Emit
pub mod Meaning
pub mod Calls
