-- ===== src/Natives.antt =====
-- subprojects/sourcepawn: the natives by which plugins reach the managers of the module.
pub mod Packed
pub mod Callbacks
pub mod Cvars
pub mod Forwards
pub mod Menus
pub mod Messages
pub mod Timers
pub mod Players
