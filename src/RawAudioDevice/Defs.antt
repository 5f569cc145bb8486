-- ===== src/RawAudioDevice/Defs.antt =====
-- The state of a `RawAudioDevice`, its constants and its constructor.
use mqtgcalls.Prelude.{ℕ, ◌*◌, ◌/◌, Bytes, Bool, false, Option, none, ℤ}
use mqtgcalls.Prelude.Monad.{M}
use mqtgcalls.Host.{Event}

abbrev pub recording_fixed_sample_rate : ℕ
recording_fixed_sample_rate = 48000

abbrev pub recording_num_channels : ℕ
recording_num_channels = 2

abbrev pub playout_fixed_sample_rate : ℕ
playout_fixed_sample_rate = 48000

abbrev pub playout_num_channels : ℕ
playout_num_channels = 2

-- 1920 bytes: 10 ms of 16-bit stereo.
abbrev pub playout_buffer_size : ℕ
playout_buffer_size = playout_fixed_sample_rate / 100 * playout_num_channels * 2

abbrev pub recording_buffer_size : ℕ
recording_buffer_size = recording_fixed_sample_rate / 100 * recording_num_channels * 2

-- A pointer to bytes is `none` for null, a pointer to another object is whether it is set.
pub record RawAudioDevice : Type 0 where
  pub playout_index : ℤ
  pub record_index : ℤ
  pub audio_buffer : Bool
  pub recording_buffer : Option Bytes
  pub playout_buffer : Option Bytes
  pub playout_frames_left : ℕ
  pub recording_buffer_size_in_10ms : ℕ
  pub recording_frames_in_10ms : ℕ
  pub playout_frames_in_10ms : ℕ
  pub thread_rec : Bool
  pub thread_play : Bool
  pub playing : Bool
  pub recording : Bool
  pub last_call_playout_millis : ℕ
  pub last_call_record_millis : ℕ

abbrev pub DeviceM : Type 0 → Type 0
DeviceM A = M RawAudioDevice Event A

-- The constructor leaves `_playout_index` and `_record_index` as the memory has them.
unfoldable pub new_device : ℤ → ℤ → RawAudioDevice
new_device playout_index record_index = record {
  playout_index = playout_index;
  record_index = record_index;
  audio_buffer = false;
  recording_buffer = none;
  playout_buffer = none;
  playout_frames_left = 0;
  recording_buffer_size_in_10ms = 0;
  recording_frames_in_10ms = 0;
  playout_frames_in_10ms = 0;
  thread_rec = false;
  thread_play = false;
  playing = false;
  recording = false;
  last_call_playout_millis = 0;
  last_call_record_millis = 0;
}
