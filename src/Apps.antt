-- ===== src/Apps.antt =====
-- examples: applications of the library, whose loops stand on fuel.
pub mod Saying
pub mod Looping
pub mod Echo
pub mod Subsystem
pub mod Exec
pub mod Signal
pub mod Context
