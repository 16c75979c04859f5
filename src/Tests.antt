-- ===== src/Tests.antt =====
-- Concrete runs: the modules below apply the properties, or evaluate the code, at small inputs.
pub mod Scenario
mod Runs
mod Devices
mod Indexes
pub mod Policies
mod Trees
