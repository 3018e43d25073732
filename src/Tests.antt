-- ===== src/Tests.antt =====
-- The theorems at concrete data, and runs of the definitions.
mod Tokens
mod Pipelines
mod Folders
mod Remotes
mod Couples
mod Sessions
mod Nodes
mod Clocks
mod Engine
mod Trees
mod Jobs
mod Limits
mod Registries
mod Locks
mod Pools
mod Windows
mod Failures
