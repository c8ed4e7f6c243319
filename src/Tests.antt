-- ===== src/Tests.antt =====
-- The theorems of the components at concrete inputs, by component.
mod Concurrent
mod Data
mod Cache
mod Routing
mod Gateway
mod Spending
mod Security
mod Stores
mod Server
mod StartUp
mod Databases
mod Layers
mod Semantic
