-- ===== src/Scenarios.antt =====
-- Concrete inputs on which the theorems are applied.
mod Queues
mod Resources
mod Controllers
mod Deployments
mod Providers
mod Trails
mod Conversations
mod Checkouts
mod Vaults
mod Extensions
