-- ===== src/Examples.antt =====
-- The theorems at concrete inputs.
mod Requests
mod Paths
mod Patches
mod Tools
mod Runs
mod Talks
mod Service
mod Lives
mod Recovery
mod Listing
