-- ===== src/RawAudioDevice/Refinement.antt =====
-- A raw device in the terms of `Joint`, which its two threads and their caller follow as those of a
-- file device do: its calls and rounds are moves that make the same calls (src/RawAudioDevice.cpp).
pub mod Rounds
pub mod Calls
pub mod Sessions
use mqtgcalls.Prelude.{false, not}
use mqtgcalls.FileAudioDevice.Control.{is_null}
use mqtgcalls.FileAudioDevice.Interleaving.{between}
use mqtgcalls.FileAudioDevice.Joint.{free, Joint}
use mqtgcalls.FileAudioDevice.Joint.Starts.{player_standing, recorder_standing}
use mqtgcalls.RawAudioDevice.Defs.{RawAudioDevice}

-- A device between two calls. The recording thread returns only when it is stopped.
abbrev pub joint_of : RawAudioDevice → Joint
joint_of d = record {
  mutex = free;
  playing = d.playing;
  play_buffer = not (is_null d.playout_buffer);
  player = player_standing d.thread_play;
  play_stage = between;
  recording = d.recording;
  rec_buffer = not (is_null d.recording_buffer);
  recorder = recorder_standing d.thread_rec false;
  rec_stage = between;
}
