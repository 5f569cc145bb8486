-- ===== src/RawAudioDevice.antt =====
-- src/RawAudioDevice.cpp and src/RawAudioDevice.h: an audio device whose microphone and speaker are
-- Python callbacks. The modules are those of `FileAudioDevice`, and `Descriptor` is the bridge to
-- the callbacks.
pub mod Defs
pub mod Descriptor
pub mod Devices
pub mod Control
pub mod Threads
pub mod Calls
pub mod Invariant
pub mod Locking
pub mod Refinement
pub mod Resources
pub mod Relay
pub mod Delivery
pub mod Independence
pub mod Turns
