-- ===== src/FileAudioDevice.antt =====
-- src/FileAudioDevice.cpp and src/FileAudioDevice.h: an audio device whose microphone is a file and
-- whose speaker writes to a file. `Defs` has its state, `Devices` the calls that select it,
-- `Control` those that start and stop it, `Threads` its two worker threads, `Calls` every call that
-- changes it as data.
pub mod Defs
pub mod Devices
pub mod Control
pub mod Threads
pub mod Calls
pub mod Invariant
pub mod Locking
pub mod Refinement
pub mod Resources
pub mod Naming
pub mod Lifecycle
pub mod Independence
pub mod Turns
pub mod Interleaving
pub mod RecInterleaving
pub mod Joint
pub mod Rounds
pub mod Announcing
pub mod Endless
pub mod Delivery
pub mod Passes
pub mod Pacing
pub mod Saving
pub mod Playback
