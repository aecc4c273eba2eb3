-- ===== src/Tests.antt =====
-- The properties at concrete inputs, and runs of the model.
mod Inputs
mod Persisting
mod Timing
mod Voting
mod Waiting
mod Appending
mod Asking
mod Leading
mod Serving
mod Replicas
mod Calling
mod Running
mod Searching
mod Snapshots
mod Elections
mod Helping
mod Hooking
mod Histories
