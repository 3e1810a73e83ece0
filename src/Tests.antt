-- ===== src/Tests.antt =====
-- Runs of the model on concrete inputs, and the witnesses of the theorems.
mod Samples
mod Witnesses
mod Repairs
mod Backends
mod Deployment
mod Laboratory
mod Deployed
mod Runtime
mod Flicker
