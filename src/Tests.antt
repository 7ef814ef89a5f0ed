-- ===== src/Tests.antt =====
-- Runs of the model and uses of its theorems at concrete inputs.
mod Rewrites
mod History
mod SetFile
mod ResponseCache
mod Plan
mod Exclusions
mod Targets
mod Settings
mod Responses
mod Upstream
mod Service
mod Commands
mod Logs
mod Lists
mod Requests
