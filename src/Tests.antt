-- ===== src/Tests.antt =====
-- Runs of the contract on small inputs.
mod World
mod Scenes
mod Handlers
mod Entry
mod Parts
mod Work
mod Service
mod Agenda
mod Clock
mod Ends
