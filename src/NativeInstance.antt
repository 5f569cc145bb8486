-- ===== src/NativeInstance.antt =====
-- src/NativeInstance.cpp, src/NativeInstance.h and src/InstanceHolder.h: the object that Python
-- holds. `Defs` has its state, `Group` and `Call` the group calls and the calls between two users.
pub mod Defs
pub mod Group
pub mod Call
pub mod Methods
pub mod Protocol
pub mod Notice
pub mod Starts
