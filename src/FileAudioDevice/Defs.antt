-- ===== src/FileAudioDevice/Defs.antt =====
-- The state of a `FileAudioDevice`, its constants and its constructor, and the descriptor of
-- src/FileAudioDeviceDescriptor.h.
use mqtgcalls.Prelude.{ℕ, ◌*◌, ◌/◌, Bytes, Bool, false, Option, none, ℤ}
use mqtgcalls.Prelude.Monad.{M}
use mqtgcalls.Host.{Event}
use mqtgcalls.Host.Files.{FileApi}

abbrev pub recording_fixed_sample_rate : ℕ
recording_fixed_sample_rate = 48000

abbrev pub recording_num_channels : ℕ
recording_num_channels = 2

abbrev pub playout_fixed_sample_rate : ℕ
playout_fixed_sample_rate = 48000

abbrev pub playout_num_channels : ℕ
playout_num_channels = 2

-- 1920 bytes: 10 ms of 16-bit stereo.
abbrev pub playout_buffer_size : ℕ
playout_buffer_size = playout_fixed_sample_rate / 100 * playout_num_channels * 2

abbrev pub recording_buffer_size : ℕ
recording_buffer_size = recording_fixed_sample_rate / 100 * recording_num_channels * 2

-- What the callbacks of a `FileAudioDeviceDescriptor` answer while one call of the device runs. The
-- code tests only `_playoutEndedCallback` for being set; the others are taken to be set.
pub record FileAudioDeviceDescriptor : Type 0 where
  pub input_filename : Bytes
  pub output_filename : Bytes
  pub is_endless_playout : Bool
  pub is_playout_paused : Bool
  pub is_recording_paused : Bool
  pub has_playout_ended_callback : Bool

-- A pointer to bytes is `none` for null, a pointer to another object is whether it is set.
pub record FileAudioDevice (File : Type 0) : Type 0 where
  pub playout_index : ℤ
  pub record_index : ℤ
  pub audio_buffer : Bool
  pub recording_buffer : Option Bytes
  pub playout_buffer : Option Bytes
  pub recording_frames_left : ℕ
  pub playout_frames_left : ℕ
  pub recording_buffer_size_in_10ms : ℕ
  pub recording_frames_in_10ms : ℕ
  pub playout_frames_in_10ms : ℕ
  pub thread_rec : Bool
  pub thread_play : Bool
  pub playing : Bool
  pub recording : Bool
  pub last_call_playout_millis : ℕ
  pub last_call_record_millis : ℕ
  pub output_file : File
  pub input_file : File

abbrev pub DeviceM : Type 0 → Type 0 → Type 0
DeviceM File A = M (FileAudioDevice File) Event A

-- The constructor leaves `_playout_index` and `_record_index` as the memory has them.
unfoldable pub new_device : {File : Type 0} → FileApi File → ℤ → ℤ → FileAudioDevice File
new_device api playout_index record_index = record {
  playout_index = playout_index;
  record_index = record_index;
  audio_buffer = false;
  recording_buffer = none;
  playout_buffer = none;
  recording_frames_left = 0;
  playout_frames_left = 0;
  recording_buffer_size_in_10ms = 0;
  recording_frames_in_10ms = 0;
  playout_frames_in_10ms = 0;
  thread_rec = false;
  thread_play = false;
  playing = false;
  recording = false;
  last_call_playout_millis = 0;
  last_call_record_millis = 0;
  output_file = api.not_opened;
  input_file = api.not_opened;
}
