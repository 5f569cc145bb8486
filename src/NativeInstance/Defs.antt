-- ===== src/NativeInstance/Defs.antt =====
-- The state of a `NativeInstance`. Objects of Python and of the tgcalls library that the code only
-- passes on are known by a number: a callable, a descriptor, an audio buffer.
use mqtgcalls.Prelude.{
  ℕ, ◌+◌, ◌==◌, if◌then◌else◌, codes, Bytes, Bool, true, Option, none, some, ℤ, pos, List, [], ◌∷◌,
  ◌++◌,
}
use mqtgcalls.RtcServer.{Endpoint}

abbrev pub Ref : Type 0
Ref = ℕ

-- Which of the three lambdas `createAudioDeviceModule` is.
pub data Factory : Type 0 where
  file_factory raw_factory platform_factory : Factory

-- `tgcalls::GroupInstanceDescriptor`, with the fields that `createInstanceHolder` sets to what
-- differs from call to call. Its two callbacks read the `NativeInstance` when they are called.
pub record GroupDescriptor : Type 0 where
  pub log_path : Bytes
  pub log_to_std_err : Bool
  pub initial_input_device_id : Bytes
  pub initial_output_device_id : Bytes
  pub create_audio_device_module : Factory
  pub outgoing_audio_bitrate_kbit : ℤ
  pub disable_outgoing_audio_processing : Bool

-- `tgcalls::DataSaving` and `tgcalls::ProtocolVersion`, of which one value each is used.
pub data DataSaving : Type 0 where
  never : DataSaving

pub data ProtocolVersion : Type 0 where
  v0 : ProtocolVersion

-- `tgcalls::Config`; the two timeouts and, below, the two volumes are whole numbers here.
pub record CallConfig : Type 0 where
  pub initialization_timeout : ℕ
  pub receive_timeout : ℕ
  pub data_saving : DataSaving
  pub enable_p2p : Bool
  pub allow_tcp : Bool
  pub enable_stun_marking : Bool
  pub enable_aec : Bool
  pub enable_ns : Bool
  pub enable_agc : Bool
  pub enable_volume_control : Bool
  pub log_path : Bytes
  pub stats_log_path : Bytes
  pub max_api_layer : ℕ
  pub enable_high_bitrate_video : Bool
  pub preferred_video_codecs : List Bytes
  pub protocol_version : ProtocolVersion

pub record MediaDevicesConfig : Type 0 where
  pub audio_input_id : Bytes
  pub audio_output_id : Bytes
  pub input_volume : ℕ
  pub output_volume : ℕ

-- `tgcalls::Descriptor`, as `startCall` fills it, less its callbacks: one reads the
-- `NativeInstance` when it is called, the others do nothing. `video_capture` is whether that pointer
-- is set.
pub record CallDescriptor : Type 0 where
  pub config : CallConfig
  pub persistent_state : Bytes
  pub rtc_servers : List Endpoint
  pub encryption_key : Bytes
  pub is_outgoing : Bool
  pub media_devices_config : MediaDevicesConfig
  pub video_capture : Bool

-- The pointers of an `InstanceHolder`: an instance is known by what it was made from.
pub record InstanceHolder : Type 0 where
  pub native_instance : Option CallDescriptor
  pub group_native_instance : Option GroupDescriptor

pub record NativeInstance : Type 0 where
  pub instance_holder : Option InstanceHolder
  pub log_to_std_err : Bool
  pub log_path : Bytes
  pub outgoing_audio_bitrate_kbit : ℤ
  pub signaling_data_emitted_callback : Option Ref
  pub emit_join_payload_callback : Option Ref
  pub network_state_updated : Option Ref
  pub file_audio_device_descriptor : Option Ref
  pub raw_audio_device_descriptor : Option Ref

pub data ConnectionMode : Type 0 where
  connection_none connection_rtc connection_broadcast : ConnectionMode

-- What the object does to others: calls of a group instance, of an instance, of a Python callable.
pub data Effect : Type 0 where
  group_created : GroupDescriptor → Effect
  group_destroyed : Effect
  emit_join_payload : Effect
  emit_join_payload_to : Option Ref → Effect
  set_join_response_payload : Bytes → Effect
  set_is_muted : Bool → Effect
  set_volume : (ssrc volume : ℕ) → Effect
  set_connection_mode : ConnectionMode → Bool → Effect
  perform_with_audio_device_module : Effect
  get_audio_devices : (output : Bool) → Effect
  set_audio_output_device set_audio_input_device : Bytes → Effect
  instance_created : CallDescriptor → Effect
  instance_destroyed : Effect
  set_network_type_wifi : Effect
  set_requested_video_aspect : ℕ → Effect
  set_mute_microphone : Bool → Effect
  receive_signaling_data : Bytes → Effect
  join_payload_to : Ref → Bytes → Effect
  network_state_to : Ref → Bool → Effect
  signaling_data_to : Ref → Bytes → Effect
  print : Bytes → Effect
  initialize_ssl : Effect

-- An instance that a pointer lets go of is destroyed.
abbrev pub group_freed : Option GroupDescriptor → List Effect
group_freed none = []
group_freed (some g) = group_destroyed ∷ []

abbrev pub instance_freed : Option CallDescriptor → List Effect
instance_freed none = []
instance_freed (some i) = instance_destroyed ∷ []

-- The members of a holder go in the reverse of their order.
abbrev pub holder_freed : Option InstanceHolder → List Effect
holder_freed none = []
holder_freed (some h) = group_freed h.group_native_instance ++ instance_freed h.native_instance

-- A method ends with the new state and its effects, or in a fault: a call through a null pointer or
-- an empty `std::function`.
abbrev pub Outcome : Type 0
Outcome = Option (NativeInstance × List Effect)

abbrev dot : ℕ
dot = b'.'

unfoldable pub count_dots : Bytes → ℕ
count_dots [] = 0
count_dots (c ∷ cs) = (if c == dot then 1 else 0) + count_dots cs

-- The two texts of the notice; `project_ver` is PROJECT_VER, which the build sets.
unfoldable pub notice : (project_ver : Bytes) → List Effect
notice project_ver =
    print (
      codes "tgcalls v"
      ++ (project_ver
          ++ ((if count_dots project_ver == 3 then codes " DEV" else [])
              ++ codes ", Copyright (C) 2020-2021 Il`ya (Marshal) <https://github.com/MarshalX>")))
    ∷ print (
        codes "Licensed under the terms of the GNU Lesser General Public License v3 (LGPLv3) "
        ++ (10 ∷ 10 ∷ []))
    ∷ []

-- `_emitJoinPayloadCallback` and the others start empty; `noticed` is the global `noticeDisplayed`,
-- before and after.
unfoldable pub new_instance :
    (project_ver : Bytes)
    → (noticed log_to_std_err : Bool) → Bytes
    → NativeInstance × List Effect × Bool
new_instance project_ver noticed log_to_std_err log_path = (
  record {
    instance_holder = none;
    log_to_std_err = log_to_std_err;
    log_path = log_path;
    outgoing_audio_bitrate_kbit = pos 128;
    signaling_data_emitted_callback = none;
    emit_join_payload_callback = none;
    network_state_updated = none;
    file_audio_device_descriptor = none;
    raw_audio_device_descriptor = none;
  },
  if noticed then initialize_ssl ∷ [] else notice project_ver ++ (initialize_ssl ∷ []),
  true,
)
