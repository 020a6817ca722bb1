-- ===== src/Tests.antt =====
-- Tests on concrete inputs, and the theorems applied to inputs that meet their hypotheses.
mod Publish
mod World
mod Runs
mod Worker
mod System
mod Save
mod Workflows
mod Executor
