-- ===== src/Lib.antt =====
-- A model of the Python extension `tgcalls`: the code under src/, which binds the tgcalls library and
-- WebRTC to Python and brings two audio devices of its own.
--
-- The parts, and the files that model them:
--
--   FileAudioDevice    src/FileAudioDevice.cpp and .h, src/FileAudioDeviceDescriptor.h: a device whose
--                      microphone is a file and whose speaker writes to a file. `Defs` has the members
--                      and the constructor, `Devices` naming, availability and the methods that answer
--                      by a constant, `Control` InitPlayout to StopRecording and AttachAudioBuffer,
--                      `Threads` PlayThreadProcess, RecThreadProcess and their loops, `Calls` all calls
--                      that change the device as data. `Interleaving` has StartPlayout, StopPlayout and
--                      PlayThreadProcess once more, cut at each access to what two threads share, and
--                      `RecInterleaving` the same for the recording side; `Joint` puts the moves of
--                      both threads and of their caller on one mutex, with the calls of each move in
--                      `Joint.Trace`; `Refinement` reads a device between two calls as a state of
--                      `Joint`. `Resources` says which threads
--                      and buffers a device holds, `Announcing` whether the mutex is held when the
--                      callback for the end of the file is called.
--   RawAudioDevice     src/RawAudioDevice.cpp and .h: the same with Python callbacks in place of the
--                      files; `Descriptor` is src/RawAudioDeviceDescriptor.cpp and .h, and
--                      `Refinement` reads this device, too, as a state of `Joint`.
--   WrappedAudioDeviceModule
--                      src/WrappedAudioDeviceModuleImpl.cpp: makes a WebRTC module around a device.
--   AudioModule        what src/NativeInstance.cpp does inside performWithAudioDeviceModule, over an
--                      interface of audio modules, which both devices fill (`AudioModule.Devices`).
--   RtcServer          src/RtcServer.cpp and .h, and the loop over the servers of startCall.
--   NativeInstance     src/NativeInstance.cpp and .h, src/InstanceHolder.h: the object that Python
--                      holds. `Group` has the group calls, `Call` the calls between two users,
--                      `Methods` all methods as data, `Protocol` the state machine that they follow.
--                      `Notice` looks at the constructors of a process one after the other.
--   Program            the parts together: the object of Python, the factory that makes the module, the
--                      device behind it, and the actions of Python, of the library and of the threads
--                      of the device as data, with a null descriptor or instance as a fault.
--   Bindings           src/tgcalls.cpp: the __repr__ texts, the attributes of the classes by name
--                      (`Attributes`, `Classes`), and the methods of NativeInstance by name and
--                      arguments (`Dispatch`; `Spelling` is a call as Python writes it), over the
--                      conversions of pybind11 (`Casters`) and its choice among overloads
--                      (`Resolution`) as interfaces with laws.
--   Host               what the devices call and do not implement: the calls as events, FileWrapper as
--                      an interface with the laws that its comments promise (`Files`, filled by a file
--                      in memory in `MemFile`), the rules of the mutex (`Locking`), of threads and
--                      buffers (`Resources`), what reaches the far ends (`Playback`), the transport,
--                      WebRTC's AudioDeviceBuffer, with the block that it keeps, and the test for a
--                      null pointer to it (`Transport`), and the rounds of two threads in any order
--                      (`Turns`).
--
-- NativeInstance makes a group instance of the library with a factory that calls
-- WrappedAudioDeviceModule, which makes one of the two devices; the library then calls the device
-- through its WebRTC module, and the worker threads of the device call the transport, the files and
-- the callbacks. Names are those of the source in snake case. Code that changes a state returns its
-- result, the new state and the calls that it made, oldest first; a call through a null pointer, or
-- through an empty callback of NativeInstance, is a fault (`none`). In a device the rounds and the
-- calls are total, as for one with a transport; `checked_step` of `Calls` is a call with the test
-- of the pointer to the transport, and `Program` uses it. The pointer that AttachAudioBuffer is
-- given is taken to be set, and so are the callbacks of a descriptor except the one for the end of
-- the file: an empty one would throw.
--
-- Times are milliseconds as natural numbers, with subtractions of the source written as additions;
-- `size_t` and `uint32_t` fields hold small constants and do not wrap; `uint16_t(port)` is modulo
-- 2^16; the volume of a participant, a `double`, is the number that its bits are, and the two
-- volumes and the timeouts of a call are whole numbers. A pointer to bytes is an optional list, a
-- pointer to an object of another library is whether it is set. The loops of the threads run over a
-- list of rounds, each with the clock, the audio and the answers of the callbacks that it meets: a
-- theorem that a loop ends says how many rounds are enough. RTC_DCHECK and RTC_LOG do nothing, as
-- in a release build without a log. In `Threads` and `Calls` a round is one step, in which nobody
-- else touches the device; `Interleaving`, `RecInterleaving` and `Joint` cut it at each access to
-- what threads share. What the library does on a thread of its own after
-- performWithAudioDeviceModule is done at once in `Program`, a call on the module is one on its
-- device, and the module is there as long as the group instance. What the constructor leaves
-- uninitialized and what a moved string holds are arguments, as is PROJECT_VER, which the build
-- sets.
--
-- Not modelled: the tgcalls library and WebRTC (third_party/), of which the calls are events and
-- the answers arguments; pybind11's own code, the exceptions that it translates, the enumeration of
-- connection modes and `ping` in src/tgcalls.cpp; the callbacks of startCall that do nothing; the
-- text of the log; a callback of Python that calls back into the object or the device; build
-- scripts.
pub mod Prelude
pub mod Host
pub mod FileAudioDevice
pub mod RawAudioDevice
pub mod RtcServer
pub mod AudioModule
pub mod NativeInstance
pub mod WrappedAudioDeviceModule
pub mod Program
pub mod Bindings
pub mod Tests
