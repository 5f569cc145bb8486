-- ===== src/FileAudioDevice/Refinement.antt =====
-- A file device in the terms of `Joint`: its calls and the rounds of its threads are moves that make
-- the same calls (src/FileAudioDevice.cpp).
pub mod Rounds
pub mod Calls
pub mod Formats
pub mod Sessions
use mqtgcalls.Prelude.{
  ℕ, ◌≤◌, Bytes, Bool, true, false, List, [], ◌∷◌, ◌++◌, ◌≡◌, refl, ap, ◌∙◌, arith, not, ◌&&◌, ltb,
  ◌+◌, ◌-◌, take, length, inl, inr, Bool-cases, if◌then◌else◌, is_empty,
}
use mqtgcalls.Host.{
  Event, play_thread, rec_thread, stop_thread, file_write, sleep_ms, playout_ended, new_buffer,
  delete_buffer, open_output, open_input, close_output, close_input,
}
use mqtgcalls.Host.Files.{FileApi, Heap}
use mqtgcalls.FileAudioDevice.Defs.{
  FileAudioDevice, FileAudioDeviceDescriptor, playout_buffer_size, recording_buffer_size,
}
use mqtgcalls.FileAudioDevice.Control.{
  is_null, set_playout_device, set_recording_device, init_playout, init_recording,
  attach_audio_buffer, start_playout, stop_playout, start_recording, stop_recording,
}
use mqtgcalls.FileAudioDevice.Threads.{
  Tick, bytes_at, is_due, play_thread_process, rec_thread_process, record_block, end_round,
}
use mqtgcalls.FileAudioDevice.Calls.{
  Call, starts_playout, starts_recording, stops_playout, stops_recording, plays, records, step, run,
}
use mqtgcalls.FileAudioDevice.Invariant.{Inv, Permitted, AllPermitted, step-Inv}
use mqtgcalls.FileAudioDevice.Interleaving.{Worker, between}
use mqtgcalls.FileAudioDevice.Joint.{free, Joint}
use mqtgcalls.FileAudioDevice.Joint.Trace.{
  AtMostOne, if_so, AtMostOne-if_so, is_output, is_sleep, JointTrace, done, JointTrace-append,
  JointTrace-eq,
}
use mqtgcalls.FileAudioDevice.Joint.Rounds.{play_calls, player_at, play_round-JointTrace}
use mqtgcalls.FileAudioDevice.Joint.Starts.{
  player_standing, recorder_standing, stop_play-JointTrace,
}

-- A device between two calls, in the terms of `Joint`; `gone` if its recording thread has returned.
abbrev pub joint_of : {File : Type 0} → Bool → FileAudioDevice File → Joint
joint_of gone d = record {
  mutex = free;
  playing = d.playing;
  play_buffer = not (is_null d.playout_buffer);
  player = player_standing d.thread_play;
  play_stage = between;
  recording = d.recording;
  rec_buffer = not (is_null d.recording_buffer);
  recorder = recorder_standing d.thread_rec gone;
  rec_stage = between;
}

abbrev pub slept : Tick → List Event
slept t = if_so (ltb t.later (t.now + 10)) (sleep_ms (t.now + 10 - t.later))

pub slept_lem : (t : Tick) → AtMostOne is_sleep (slept t)
slept_lem t = AtMostOne-if_so is_sleep (ltb t.later (t.now + 10)) _ refl
