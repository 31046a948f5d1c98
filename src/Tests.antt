-- ===== src/Tests.antt =====
-- Runs of the operations on concrete data, and of the theorems at inputs that meet their hypotheses.
mod Utils
mod Forward
mod Message
mod Timer
mod Menu
mod Player
mod Natives
mod Pushes
mod VTable
mod Command
mod Cvar
mod Plugin
mod MenuNatives
mod MessageNatives
mod Adapter
mod Callbacks
