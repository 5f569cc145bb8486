-- ===== src/Bindings/Spelling.antt =====
-- A call of a method of `NativeInstance` as Python writes it (src/tgcalls.cpp).
use mqtgcalls.Prelude.{Bytes, List, [], ◌∷◌, none, ◌≡◌, true, codes}
use mqtgcalls.NativeInstance.Group.{
  GroupCall, emits_join_payload, sets_join_response_payload, sets_is_muted, sets_volume,
  sets_connection_mode, stops_audio_device_module, starts_audio_device_module,
  restarts_audio_input_device, restarts_audio_output_device, gets_playout_devices,
  gets_recording_devices, sets_audio_output_device, sets_audio_input_device,
}
use mqtgcalls.NativeInstance.Methods.{
  Method, setups_group_call, starts_file_call, starts_raw_call, starts_platform_call,
  stops_group_call, calls_group, starts_call, receives_signaling, sets_signaling_callback,
}
use mqtgcalls.Bindings.Casters.{Casters, is_int, is_uint32, is_auth_key, are_uint8}

-- How Python spells a method: its name,
abbrev pub group_name : GroupCall → Bytes
group_name (emits_join_payload f) = codes "emitJoinPayload"
group_name (sets_join_response_payload p) = codes "setJoinResponsePayload"
group_name (sets_is_muted b) = codes "setIsMuted"
group_name (sets_volume ssrc volume) = codes "setVolume"
group_name (sets_connection_mode mode keep) = codes "setConnectionMode"
group_name stops_audio_device_module = codes "stopAudioDeviceModule"
group_name starts_audio_device_module = codes "startAudioDeviceModule"
group_name restarts_audio_input_device = codes "restartAudioInputDevice"
group_name restarts_audio_output_device = codes "restartAudioOutputDevice"
group_name gets_playout_devices = codes "getPlayoutDevices"
group_name gets_recording_devices = codes "getRecordingDevices"
group_name (sets_audio_output_device id) = codes "setAudioOutputDevice"
group_name (sets_audio_input_device id) = codes "setAudioInputDevice"

abbrev pub python_name : Method → Bytes
python_name (setups_group_call emit state bitrate) = codes "setupGroupCall"
python_name (starts_file_call descriptor) = codes "startGroupCall"
python_name (starts_raw_call descriptor) = codes "startGroupCall"
python_name (starts_platform_call input output) = codes "startGroupCall"
python_name stops_group_call = codes "stopGroupCall"
python_name (calls_group c) = group_name c
python_name (starts_call servers key outgoing path) = codes "startCall"
python_name (receives_signaling signal) = codes "receiveSignalingData"
python_name (sets_signaling_callback f) = codes "setSignalingDataEmittedCallback"

module _ {V : Type 0} (c : Casters V) where
  -- and its arguments.
  abbrev pub group_arguments : GroupCall → List V
  group_arguments (emits_join_payload f) = c.function.cast f ∷ []
  group_arguments (sets_join_response_payload p) = c.string.cast p ∷ []
  group_arguments (sets_is_muted b) = c.bool.cast b ∷ []
  group_arguments (sets_volume ssrc volume) = c.uint32.cast ssrc ∷ c.double.cast volume ∷ []
  group_arguments (sets_connection_mode mode keep) = c.mode.cast mode ∷ c.bool.cast keep ∷ []
  group_arguments (sets_audio_output_device id) = c.string.cast id ∷ []
  group_arguments (sets_audio_input_device id) = c.string.cast id ∷ []
  group_arguments _ = []

  abbrev pub python_arguments : Method → List V
  python_arguments (setups_group_call emit state bitrate) =
      c.function.cast emit ∷ c.function.cast state ∷ c.int.cast bitrate ∷ []
  python_arguments (starts_file_call descriptor) = c.file_descriptor.cast descriptor ∷ []
  python_arguments (starts_raw_call descriptor) = c.raw_descriptor.cast descriptor ∷ []
  python_arguments (starts_platform_call input output) =
      c.string.cast input ∷ c.string.cast output ∷ []
  python_arguments stops_group_call = []
  python_arguments (calls_group g) = group_arguments g
  python_arguments (starts_call servers key outgoing path) =
      c.servers.cast servers ∷ c.auth_key.cast key ∷ c.bool.cast outgoing ∷ c.string.cast path ∷ []
  python_arguments (receives_signaling signal) = c.uint8s.cast signal ∷ []
  python_arguments (sets_signaling_callback f) = c.function.cast f ∷ []

  -- Its numbers are those that the C++ types have, and its strings are texts.
  abbrev pub IsInRange : Method → Type 0
  IsInRange (setups_group_call emit state bitrate) = is_int bitrate ≡ true
  IsInRange (starts_platform_call input output) =
      (c.is_text input ≡ true) × (c.is_text output ≡ true)
  IsInRange (calls_group (sets_join_response_payload p)) = c.is_text p ≡ true
  IsInRange (calls_group (sets_volume ssrc volume)) = is_uint32 ssrc ≡ true
  IsInRange (calls_group (sets_audio_output_device id)) = c.is_text id ≡ true
  IsInRange (calls_group (sets_audio_input_device id)) = c.is_text id ≡ true
  IsInRange (starts_call servers key outgoing path) =
      (is_auth_key key ≡ true) × (c.is_text path ≡ true)
  IsInRange (receives_signaling signal) = are_uint8 signal ≡ true
  IsInRange m = Unit

-- What the call does: `None` is taken for a file descriptor.
abbrev pub taken_as : Method → Method
taken_as (starts_raw_call none) = starts_file_call none
taken_as m = m
