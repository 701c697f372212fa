-- ===== src/Tests.antt =====
-- Runs of the definitions, and the theorems at concrete inputs.
mod Versions
mod Files
mod Matches
mod Values
mod Parsing
mod Images
mod System
mod Paths
mod Whole
mod Frozen
mod Builds
mod Machines
mod Loads
mod Included
