-- ===== src/Tests.antt =====
-- Concrete devices, calls and objects, at which the theorems are applied and the code is run.
mod FileDevice
mod FileThreads
mod RawDevice
mod RecThread
mod Modules
mod Instance
mod Whole
mod Joint
mod Values
mod Bindings
use mqtgcalls.Prelude.{
  ℕ, Bytes, Bool, true, false, List, [], ◌∷◌, Option, none, some, ℤ, pos, codes, replicate,
}
use mqtgcalls.Host.MemFile.{MemFile, mem_file, mem_api}
use mqtgcalls.FileAudioDevice.Defs.{FileAudioDevice, FileAudioDeviceDescriptor}
use mqtgcalls.FileAudioDevice.Threads as FileThread
use mqtgcalls.RawAudioDevice.Defs.{RawAudioDevice}
use mqtgcalls.RawAudioDevice.Threads as RawThread
use mqtgcalls.RtcServer.{RtcServer}

abbrev pub in_name : Bytes
in_name = codes "in.raw"

-- One pass over a file, which is to be told of at its end.
abbrev pub once : FileAudioDeviceDescriptor
once = record {
  input_filename = in_name;
  output_filename = codes "out.raw";
  is_endless_playout = false;
  is_playout_paused = false;
  is_recording_paused = false;
  has_playout_ended_callback = true;
}

abbrev pub endless : FileAudioDeviceDescriptor
endless = record once { is_endless_playout = true }

abbrev pub silence : Bytes
silence = replicate 1920 0

-- A file device at work on both sides, with `input` to play.
abbrev pub busy : MemFile → FileAudioDevice MemFile
busy input = record {
  playout_index = pos 0;
  record_index = pos 0;
  audio_buffer = true;
  recording_buffer = some silence;
  playout_buffer = some silence;
  recording_frames_left = 0;
  playout_frames_left = 0;
  recording_buffer_size_in_10ms = 1920;
  recording_frames_in_10ms = 480;
  playout_frames_in_10ms = 480;
  thread_rec = true;
  thread_play = true;
  playing = true;
  recording = true;
  last_call_playout_millis = 0;
  last_call_record_millis = 0;
  output_file = mem_file [];
  input_file = input;
}

-- The same device, stopped.
abbrev pub stopped : FileAudioDevice MemFile
stopped = record (busy mem_api.not_opened) {
  recording_buffer = none;
  playout_buffer = none;
  thread_rec = false;
  thread_play = false;
  playing = false;
  recording = false;
  output_file = mem_api.not_opened;
}

-- A round that starts at `now` and takes 3 ms.
abbrev pub round : FileAudioDeviceDescriptor → ℕ → ℕ → FileThread.Tick
round answers now later = record {
  now = now;
  later = later;
  samples = silence;
  frames = 480;
  answers = answers;
}

abbrev pub busy_raw : RawAudioDevice
busy_raw = record {
  playout_index = pos 0;
  record_index = pos 0;
  audio_buffer = true;
  recording_buffer = some silence;
  playout_buffer = some silence;
  playout_frames_left = 0;
  recording_buffer_size_in_10ms = 1920;
  recording_frames_in_10ms = 480;
  playout_frames_in_10ms = 480;
  thread_rec = true;
  thread_play = true;
  playing = true;
  recording = true;
  last_call_playout_millis = 0;
  last_call_record_millis = 0;
}

-- A round of a raw device whose callback gives `played`.
abbrev pub raw_round : Bytes → ℕ → ℕ → RawThread.Tick
raw_round played now later = record {
  now = now;
  later = later;
  samples = silence;
  frames = 480;
  answers = record { played = played; is_playout_paused = false; is_recording_paused = false };
}

abbrev pub server : RtcServer
server = record {
  ip = codes "10.0.0.1";
  ipv6 = codes "fe80::1";
  port = pos 3478;
  login = codes "user";
  password = codes "secret";
  is_turn = true;
  is_stun = true;
}
