-- ===== src/Tests.antt =====
-- A sample of everything that the model takes from outside, and the theorems at concrete inputs.
mod Codec
mod Sample
mod Chains
mod Nodes
mod Ordering
mod Logs
mod Signers
mod Networks
mod Metrics
mod Verifying
mod Builds
mod Artifacts
mod Serving
mod Requests
mod Wires
mod Settings
mod Asked
mod Images
mod Starting
mod Filters
