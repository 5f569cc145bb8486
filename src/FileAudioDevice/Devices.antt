-- ===== src/FileAudioDevice/Devices.antt =====
-- Device enumeration and selection, and the calls that answer by a constant.
use mqtgcalls.Prelude.{
  ℕ, suc, Bytes, Bool, true, false, [], ◌∷◌, ℤ, pos, minus_one, is_zero, codes, length, take,
  replicate, overlay, ltb, ◌==◌, if◌then◌else◌,
}
use mqtgcalls.FileAudioDevice.Defs.{FileAudioDevice}

-- C's `strlen`: the bytes before the first zero.
unfoldable pub strlen : Bytes → ℕ
strlen [] = 0
strlen (c ∷ cs) = if c == 0 then 0 else suc (strlen cs)

abbrev pub dummy_name : Bytes
dummy_name = codes "dummy_device"

abbrev pub dummy_guid : Bytes
dummy_guid = codes "dummy_device_unique_id"

-- The two arrays after the call; their sizes are WebRTC's `kAdmMaxDeviceNameSize` and
-- `kAdmMaxGuidSize`.
unfoldable pub playout_device_name :
    (name_size guid_size index : ℕ) → Bytes → Bytes → ℤ × Bytes × Bytes
playout_device_name name_size guid_size index name guid =
    if ltb index 1
    then (let name' = replicate name_size 0 in
        let guid' = replicate guid_size 0 in
        (
          pos 0,
          overlay (take (length dummy_name) dummy_name) name',
          overlay (take (strlen guid') dummy_guid) guid',
        ))
    else (minus_one, name, guid)

unfoldable pub recording_device_name :
    (name_size guid_size index : ℕ) → Bytes → Bytes → ℤ × Bytes × Bytes
recording_device_name name_size guid_size index name guid =
    if ltb index 1
    then (let name' = replicate name_size 0 in
        let guid' = replicate guid_size 0 in
        (
          pos 0,
          overlay (take (length dummy_name) dummy_name) name',
          overlay (take (strlen guid') dummy_guid) guid',
        ))
    else (minus_one, name, guid)

-- What a call answers whose answer never depends on the device: a status, a status and what it
-- writes through a `bool &` argument, or a state.
pub data FixedAnswer : Type 0 where
  init_ok : FixedAnswer
  status : ℤ → FixedAnswer
  flagged : ℤ → Bool → FixedAnswer
  state : Bool → FixedAnswer

-- Initialization and enumeration.
pub data SetupCall : Type 0 where
  active_audio_layer init terminate initialized playout_devices recording_devices : SetupCall

unfoldable pub fixed_setup : SetupCall → FixedAnswer
fixed_setup active_audio_layer = status minus_one
fixed_setup init = init_ok
fixed_setup terminate = status (pos 0)
fixed_setup initialized = state true
fixed_setup playout_devices = status (pos 1)
fixed_setup recording_devices = status (pos 1)

-- `SetPlayoutDevice` and `SetRecordingDevice` by a type of Windows devices.
abbrev pub set_device_type : FixedAnswer
set_device_type = status minus_one

-- Speaker, microphone, volume, mute, stereo and delay.
pub data MixerCall : Type 0 where
  init_speaker speaker_is_initialized init_microphone microphone_is_initialized : MixerCall
  speaker_volume_is_available set_speaker_volume speaker_volume : MixerCall
  max_speaker_volume min_speaker_volume : MixerCall
  microphone_volume_is_available set_microphone_volume microphone_volume : MixerCall
  max_microphone_volume min_microphone_volume : MixerCall
  speaker_mute_is_available set_speaker_mute speaker_mute : MixerCall
  microphone_mute_is_available set_microphone_mute microphone_mute : MixerCall
  stereo_playout_is_available set_stereo_playout stereo_playout : MixerCall
  stereo_recording_is_available set_stereo_recording stereo_recording : MixerCall
  playout_delay : MixerCall

unfoldable pub fixed_mixer : MixerCall → FixedAnswer
fixed_mixer speaker_is_initialized = state false
fixed_mixer init_microphone = status (pos 0)
fixed_mixer microphone_is_initialized = state true
fixed_mixer stereo_playout_is_available = flagged (pos 0) true
fixed_mixer set_stereo_playout = status (pos 0)
fixed_mixer stereo_playout = flagged (pos 0) true
fixed_mixer stereo_recording_is_available = flagged (pos 0) true
fixed_mixer set_stereo_recording = status (pos 0)
fixed_mixer stereo_recording = flagged (pos 0) true
fixed_mixer playout_delay = status (pos 0)
fixed_mixer _ = status minus_one

module _ {File : Type 0} where
  -- The status, and the value of `available`.
  unfoldable pub playout_is_available : FileAudioDevice File → ℤ × Bool
  playout_is_available d =
      if is_zero d.playout_index then (d.playout_index, true) else (minus_one, false)

  unfoldable pub recording_is_available : FileAudioDevice File → ℤ × Bool
  recording_is_available d =
      if is_zero d.record_index then (d.record_index, true) else (minus_one, false)
