-- ===== src/AudioModule.antt =====
-- The audio device module as `NativeInstance` drives it (src/NativeInstance.cpp, the functions that
-- `performWithAudioDeviceModule` is given). The module is WebRTC's: an interface here, which the two
-- devices of this repository fill.
pub mod Restarts
pub mod Devices
use mqtgcalls.Prelude.{Bool, true, false, List, [], ◌∷◌, ◌++◌, ◌≡◌, ℤ, pos, is_zero, not, ◌&&◌}
use mqtgcalls.Prelude.Monad.{M, pure, get, when, ◌>>=◌, ◌>>◌, if◌then◌else◌}

-- Each call returns its status.
pub record AudioDeviceModule (S E : Type 0) : Type 0 where
  pub recording : S → Bool
  pub playing : S → Bool
  pub init_recording : S → ℤ × S × List E
  pub init_playout : S → ℤ × S × List E
  pub start_recording : S → ℤ × S × List E
  pub start_playout : S → ℤ × S × List E
  pub stop_recording : S → ℤ × S × List E
  pub stop_playout : S → ℤ × S × List E

-- What the code relies on: a stop stops, a start reports whether it runs, a stopped side can be
-- initialized, and the two sides do not meddle with one another.
pub record KeepsStatus {S E : Type 0} (adm : AudioDeviceModule S E) : Type 0 where
  pub recording-stop : (s : S) → adm.recording (adm.stop_recording s).1 ≡ false
  pub recording-start :
      (s : S) → adm.recording (adm.start_recording s).1 ≡ is_zero (adm.start_recording s).0
  pub init_recording_lem :
      (s : S)
      → adm.recording s ≡ false
      → ((adm.init_recording s).0 ≡ pos 0) × (adm.recording (adm.init_recording s).1 ≡ false)
  pub playing-stop : (s : S) → adm.playing (adm.stop_playout s).1 ≡ false
  pub playing-start :
      (s : S) → adm.playing (adm.start_playout s).1 ≡ is_zero (adm.start_playout s).0
  pub init_playout_lem :
      (s : S)
      → adm.playing s ≡ false
      → ((adm.init_playout s).0 ≡ pos 0) × (adm.playing (adm.init_playout s).1 ≡ false)
  pub recording-stop_playout : (s : S) → adm.recording (adm.stop_playout s).1 ≡ adm.recording s
  pub recording-init_playout : (s : S) → adm.recording (adm.init_playout s).1 ≡ adm.recording s
  pub recording-start_playout : (s : S) → adm.recording (adm.start_playout s).1 ≡ adm.recording s
  pub playing-stop_recording : (s : S) → adm.playing (adm.stop_recording s).1 ≡ adm.playing s
  pub playing-init_recording : (s : S) → adm.playing (adm.init_recording s).1 ≡ adm.playing s
  pub playing-start_recording : (s : S) → adm.playing (adm.start_recording s).1 ≡ adm.playing s

module _ {S E : Type 0} (adm : AudioDeviceModule S E) where
  -- A call for its effect.
  abbrev pub ignore : (S → ℤ × S × List E) → M S E (Unit {0})
  ignore m s = (tt, (m s).1, (m s).2)

  -- `present`: the pointer to the module is not null.
  unfoldable pub stop_audio_device_module : Bool → M S E (Unit {0})
  stop_audio_device_module present =
      if not present then pure tt else (do ignore adm.stop_recording; ignore adm.stop_playout)

  unfoldable pub start_audio_device_module : Bool → M S E (Unit {0})
  start_audio_device_module present = if not present then pure tt else (do
    s ← get
    when (not (adm.recording s)) (ignore adm.start_recording)
    s' ← get
    when (not (adm.playing s')) (ignore adm.start_playout))

  unfoldable pub restart_audio_input_device : Bool → M S E (Unit {0})
  restart_audio_input_device present = if not present then pure tt else (do
    s ← get
    let recording = adm.recording s
    when recording (ignore adm.stop_recording)
    if recording
        then (do status ← adm.init_recording; when (is_zero status) (ignore adm.start_recording))
        else pure tt)

  unfoldable pub restart_audio_output_device : Bool → M S E (Unit {0})
  restart_audio_output_device present = if not present then pure tt else (do
    s ← get
    when (adm.playing s) (ignore adm.stop_playout)
    status ← adm.init_playout
    when (is_zero status) (ignore adm.start_playout))
