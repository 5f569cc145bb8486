-- ===== src/WrappedAudioDeviceModule.antt =====
-- src/WrappedAudioDeviceModuleImpl.cpp and .h: a WebRTC audio module around a device of this
-- repository. The module's own checks are WebRTC's and come as answers; what its `AttachAudioBuffer`
-- does with the device is an argument.
pub mod Created
use mqtgcalls.Prelude.{
  Bool, true, false, Option, none, some, ℤ, is_minus_one, List, [], if◌then◌else◌,
}
use mqtgcalls.Host.{Event}
use mqtgcalls.Host.Files.{FileApi}
use mqtgcalls.FileAudioDevice.Defs.{FileAudioDevice}
use mqtgcalls.FileAudioDevice.Defs as FileDevice
use mqtgcalls.RawAudioDevice.Defs.{RawAudioDevice}
use mqtgcalls.RawAudioDevice.Defs as RawDevice

-- `platform` is the result of `CheckPlatform`; `attach` gives the status of `AttachAudioBuffer` and
-- the device after it; the two integers are those of an uninitialized device.
unfoldable pub create_for_test_file :
    {File : Type 0}
    → FileApi File
    → ℤ
    → (FileAudioDevice File → ℤ × FileAudioDevice File)
    → ℤ
    → ℤ
    → Option (FileAudioDevice File)
create_for_test_file api platform attach playout_index record_index =
    if is_minus_one platform
    then none
    else (let (status, device) = attach (FileDevice.new_device api playout_index record_index) in
        if is_minus_one status then none else some device)

unfoldable pub create_for_test_raw :
    ℤ → (RawAudioDevice → ℤ × RawAudioDevice) → ℤ → ℤ → Option RawAudioDevice
create_for_test_raw platform attach playout_index record_index =
    if is_minus_one platform
    then none
    else (let (status, device) = attach (RawDevice.new_device playout_index record_index) in
        if is_minus_one status then none else some device)

-- The two `Create` only log before they go on.
unfoldable pub create_file :
    {File : Type 0}
    → FileApi File
    → ℤ
    → (FileAudioDevice File → ℤ × FileAudioDevice File)
    → ℤ
    → ℤ
    → Option (FileAudioDevice File)
unfolding create_for_test_file
create_file api platform attach playout_index record_index =
    create_for_test_file api platform attach playout_index record_index

unfoldable pub create_raw :
    ℤ → (RawAudioDevice → ℤ × RawAudioDevice) → ℤ → ℤ → Option RawAudioDevice
unfolding create_for_test_raw
create_raw platform attach playout_index record_index =
    create_for_test_raw platform attach playout_index record_index
