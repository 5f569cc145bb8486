-- ===== src/WrappedAudioDeviceModule/Created.antt =====
-- The device behind a created module, or null.
use mqtgcalls.Prelude.{true, false, Option, none, some, ℤ, is_minus_one, ◌≡◌, ◌⊎◌, arith}
use mqtgcalls.Host.Files.{FileApi}
use mqtgcalls.FileAudioDevice.Defs.{FileAudioDevice, new_device}
use mqtgcalls.FileAudioDevice.Control.{attach_audio_buffer}
use mqtgcalls.FileAudioDevice.Invariant.{Inv}
use mqtgcalls.RawAudioDevice.Defs.{RawAudioDevice}
use mqtgcalls.RawAudioDevice.Control as Raw
use mqtgcalls.RawAudioDevice.Defs as Raw_defs
use mqtgcalls.RawAudioDevice.Invariant as Raw_invariant
use mqtgcalls.WrappedAudioDeviceModule.{create_file, create_raw}

module _ {File : Type 0} (api : FileApi File) (platform status playout_index record_index : ℤ) where
  -- WebRTC attaches its buffer by the device's own `AttachAudioBuffer`.
  abbrev pub attaches : FileAudioDevice File → ℤ × FileAudioDevice File
  attaches d = (status, (attach_audio_buffer d).1)

  abbrev pub Attached : Option (FileAudioDevice File) → Type 0
  Attached none = ⊥
  Attached (some d) = Inv d × (d.audio_buffer ≡ true) × (d.playout_index ≡ playout_index)

  -- Where the module attaches its buffer by the device's AttachAudioBuffer: creating a module
  -- around a file device gives a device that keeps its invariant, is attached and has the index
  -- that the memory held, if neither the platform check nor the attachment returns -1, and gives
  -- null if one does.
  pub create_file_result :
      ((is_minus_one platform ≡ false)
        × (is_minus_one status ≡ false)
        × Attached (create_file api platform attaches playout_index record_index))
      ⊎ (((is_minus_one platform ≡ true) ⊎ (is_minus_one status ≡ true))
          × (create_file api platform attaches playout_index record_index ≡ none))
  unfolding create_file attach_audio_buffer new_device
  create_file_result = ground arith

module _ (platform status playout_index record_index : ℤ) where
  abbrev pub attaches_raw : RawAudioDevice → ℤ × RawAudioDevice
  attaches_raw d = (status, (Raw.attach_audio_buffer d).1)

  abbrev pub RawAttached : Option RawAudioDevice → Type 0
  RawAttached none = ⊥
  RawAttached (some d) =
      Raw_invariant.Inv d × (d.audio_buffer ≡ true) × (d.playout_index ≡ playout_index)

  -- Where the module attaches its buffer by the device's AttachAudioBuffer: creating a module
  -- around a raw device gives a device that keeps its invariant, is attached and has the index
  -- that the memory held, if neither the platform check nor the attachment returns -1, and gives
  -- null if one does.
  pub create_raw_result :
      ((is_minus_one platform ≡ false)
        × (is_minus_one status ≡ false)
        × RawAttached (create_raw platform attaches_raw playout_index record_index))
      ⊎ (((is_minus_one platform ≡ true) ⊎ (is_minus_one status ≡ true))
          × (create_raw platform attaches_raw playout_index record_index ≡ none))
  unfolding create_raw Raw.attach_audio_buffer Raw_defs.new_device
  create_raw_result = ground arith
