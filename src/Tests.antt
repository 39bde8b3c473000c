-- ===== src/Tests.antt =====
-- Runs of the model at concrete inputs, and the theorems applied at inputs that meet their
-- hypotheses.
mod Basics
mod Floats
mod Plans
mod Engine
mod Checks
mod Versions
mod Requests
mod Decoders
mod Constraints
mod Matches
mod Inventories
