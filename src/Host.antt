-- ===== src/Host.antt =====
-- What the two audio devices (src/FileAudioDevice.cpp, src/RawAudioDevice.cpp) call and do not
-- implement: WebRTC's mutex, threads, clock, AudioDeviceBuffer and FileWrapper, the allocator, and
-- the Python callbacks of a descriptor.
pub mod Files
pub mod Locking
pub mod Resources
pub mod Turns
pub mod Playback
pub mod Transport
pub mod MemFile
use mqtgcalls.Prelude.{ℕ, Bytes}

pub data Worker : Type 0 where
  play_thread rec_thread : Worker

-- The calls out of a device. A call that also changes a value which the device holds (a file, a
-- buffer) changes that value in the device as well. A buffer is known by the thread that uses it;
-- `delete[]` of a null pointer does nothing and is no event.
pub data Event : Type 0 where
  lock unlock : Event
  set_playout_sample_rate set_recording_sample_rate : ℕ → Event
  set_playout_channels set_recording_channels : ℕ → Event
  request_playout_data : ℕ → Event
  get_playout_data : Event
  set_recorded_buffer : Bytes → ℕ → Event
  deliver_recorded_data : Event
  start_thread stop_thread : Worker → Event
  new_buffer delete_buffer : Worker → Event
  open_output open_input : Bytes → Event
  close_output close_input : Event
  file_write : Bytes → Event
  file_read : ℕ → Event
  file_rewind : Event
  playout_ended : Bytes → Event
  put_recorded : Bytes → ℕ → Event
  get_played : ℕ → Event
  sleep_ms : ℕ → Event
