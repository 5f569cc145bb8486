-- ===== src/Bindings/Copies.antt =====
-- Objects of src/tgcalls.cpp that are read and written attribute by attribute.
use mqtgcalls.Prelude.{
  Bool, if◌then◌else◌, true, false, List, [], ◌∷◌, Option, none, some, ◌≡◌, arith,
}
use mqtgcalls.RtcServer.{RtcServer}
use mqtgcalls.Bindings.{GroupJoinPayload, AudioDevice}
use mqtgcalls.Bindings.Casters.{Casters, is_int, is_uint32, are_uint32, are_texts, ◌===◌, ◌>>=◌}
use mqtgcalls.Bindings.Attributes.{
  Attribute, get_attribute, set_attribute, names, copy_names, attributes_of,
}
use mqtgcalls.Bindings.Classes.{
  FileCallbacks, RawCallbacks, GroupJoinPayloadVideoPayloadType, GroupJoinPayloadVideoSourceGroup,
  rtc_server_init, rtc_server_class, group_join_payload_class, video_payload_type_class,
  video_source_group_class, file_descriptor_class, raw_descriptor_class, audio_device_class,
}

-- An object of each class but one, with another of its class to copy to.
pub record Objects : Type 0 where
  pub server : RtcServer
  pub payload : GroupJoinPayload
  pub source_group : GroupJoinPayloadVideoSourceGroup
  pub file_callbacks : FileCallbacks
  pub raw_callbacks : RawCallbacks
  pub audio_device : AudioDevice

abbrev pub is_empty_list : {A : Type 0} → List A → Bool
is_empty_list [] = true
is_empty_list (x ∷ xs) = false

-- Servers whose port is an `int` and whose strings are texts,
pub record IsServer {V : Type 0} (c : Casters V) (s : RtcServer) : Type 0 where
  pub ip : c.is_text s.ip ≡ true
  pub ipv6 : c.is_text s.ipv6 ≡ true
  pub port : is_int s.port ≡ true
  pub login : c.is_text s.login ≡ true
  pub password : c.is_text s.password ≡ true

-- and the same for all objects.
pub record AreConvertible {V : Type 0} (c : Casters V) (s : Objects) : Type 0 where
  pub server : IsServer c s.server
  pub audio_ssrc : is_uint32 s.payload.audio_ssrc ≡ true
  pub json : c.is_text s.payload.json ≡ true
  pub ssrcs : are_uint32 s.source_group.ssrcs ≡ true
  pub semantics : c.is_text s.source_group.semantics ≡ true
  pub name : c.is_text s.audio_device.name ≡ true
  pub guid : c.is_text s.audio_device.guid ≡ true

pub record IsPayloadType {V : Type 0} (c : Casters V) (s : GroupJoinPayloadVideoPayloadType)
    : Type 0 where
  pub id : is_uint32 s.id ≡ true
  pub name : c.is_text s.name ≡ true
  pub clockrate : is_uint32 s.clockrate ≡ true
  pub channels : is_uint32 s.channels ≡ true
  pub parameters : are_texts c.is_text s.parameters ≡ true

module _ {V : Type 0} (c : Casters V) where
  -- All attributes, by name, from one object to another of its class.
  abbrev pub copied : {S : Type 0} → List (Attribute V S) → S → S → Option S
  copied table source target = copy_names table (names table) source target

  rtc_server_copied : (s t : RtcServer) → IsServer c s → copied (rtc_server_class c) s t ≡ some s
  unfolding copy_names get_attribute set_attribute ◌===◌
  rtc_server_copied s t h = ground (
    arith,
    c.string-loads s.ip h.ip,
    c.string-loads s.ipv6 h.ipv6,
    c.int-loads s.port h.port,
    c.string-loads s.login h.login,
    c.string-loads s.password h.password,
    c.bool-loads s.is_turn,
    c.bool-loads s.is_stun,
  )

  rtc_server_rebuilt :
      (s : RtcServer)
      → IsServer c s
      → (attributes_of (rtc_server_class c) s >>= rtc_server_init c) ≡ some s
  unfolding attributes_of rtc_server_init
  rtc_server_rebuilt s h = ground (
    arith,
    c.string-loads s.ip h.ip,
    c.string-loads s.ipv6 h.ipv6,
    c.int-loads s.port h.port,
    c.string-loads s.login h.login,
    c.string-loads s.password h.password,
    c.bool-loads s.is_turn,
    c.bool-loads s.is_stun,
  )

  group_join_payload_copied :
      (s t : GroupJoinPayload)
      → is_uint32 s.audio_ssrc ≡ true
      → c.is_text s.json ≡ true
      → copied (group_join_payload_class c) s t ≡ some s
  unfolding copy_names get_attribute set_attribute ◌===◌
  group_join_payload_copied s t h i =
      ground (arith, c.uint32-loads s.audio_ssrc h, c.string-loads s.json i)

  source_group_copied :
      (s t : GroupJoinPayloadVideoSourceGroup)
      → are_uint32 s.ssrcs ≡ true
      → c.is_text s.semantics ≡ true
      → copied (video_source_group_class c) s t ≡ some s
  unfolding copy_names get_attribute set_attribute ◌===◌
  source_group_copied s t h i =
      ground (arith, c.uint32s-loads s.ssrcs h, c.string-loads s.semantics i)

  file_callbacks_copied : (s t : FileCallbacks) → copied (file_descriptor_class c) s t ≡ some s
  unfolding copy_names get_attribute set_attribute ◌===◌
  file_callbacks_copied s t = ground (
    arith,
    c.function-loads s.get_input_filename,
    c.function-loads s.get_output_filename,
    c.function-loads s.is_endless_playout,
    c.function-loads s.is_playout_paused,
    c.function-loads s.is_recording_paused,
    c.function-loads s.playout_ended_callback,
  )

  raw_callbacks_copied : (s t : RawCallbacks) → copied (raw_descriptor_class c) s t ≡ some s
  unfolding copy_names get_attribute set_attribute ◌===◌
  raw_callbacks_copied s t = ground (
    arith,
    c.function-loads s.get_played_buffer_callback,
    c.function-loads s.set_recorded_buffer_callback,
    c.function-loads s.is_playout_paused,
    c.function-loads s.is_recording_paused,
  )

  audio_device_copied :
      (s t : AudioDevice)
      → c.is_text s.name ≡ true
      → c.is_text s.guid ≡ true
      → copied (audio_device_class c) s t ≡ some s
  unfolding copy_names get_attribute set_attribute ◌===◌
  audio_device_copied s t h i = ground (arith, c.string-loads s.name h, c.string-loads s.guid i)

  -- Over any conversions with the laws of the interface, and with numbers that the C++ types have
  -- and strings that are texts: the attributes of a server, in the order of their definition, are
  -- arguments from which the constructor makes an equal server; and copying the bound attributes
  -- one by one, by name, from one object to another of its class makes the second equal to the
  -- first, for servers, join payloads, source groups, both descriptors and audio devices.
  pub attributes_complete :
      (s t : Objects)
      → AreConvertible c s
      → ((attributes_of (rtc_server_class c) s.server >>= rtc_server_init c) ≡ some s.server)
        × (copied (rtc_server_class c) s.server t.server ≡ some s.server)
        × (copied (group_join_payload_class c) s.payload t.payload ≡ some s.payload)
        × (copied (video_source_group_class c) s.source_group t.source_group ≡ some s.source_group)
        × (copied (file_descriptor_class c) s.file_callbacks t.file_callbacks
            ≡ some s.file_callbacks)
        × (copied (raw_descriptor_class c) s.raw_callbacks t.raw_callbacks ≡ some s.raw_callbacks)
        × (copied (audio_device_class c) s.audio_device t.audio_device ≡ some s.audio_device)
  attributes_complete s t h = (
    rtc_server_rebuilt s.server h.server,
    rtc_server_copied s.server t.server h.server,
    group_join_payload_copied s.payload t.payload h.audio_ssrc h.json,
    source_group_copied s.source_group t.source_group h.ssrcs h.semantics,
    file_callbacks_copied s.file_callbacks t.file_callbacks,
    raw_callbacks_copied s.raw_callbacks t.raw_callbacks,
    audio_device_copied s.audio_device t.audio_device h.name h.guid,
  )

  -- Over any conversions with the laws of the interface, and with numbers that the C++ types have
  -- and strings that are texts, copying the bound attributes of a payload type one by one, by
  -- name, to another makes the second equal to the first if the first has no feedback types, and
  -- raises an exception if it has some.
  pub payload_type_copied :
      (s t : GroupJoinPayloadVideoPayloadType)
      → IsPayloadType c s
      → copied (video_payload_type_class c) s t
        ≡ (if is_empty_list s.feedback_types then some s else none)
  unfolding copy_names get_attribute set_attribute ◌===◌
  payload_type_copied s t h = ground (
    arith,
    c.uint32-loads s.id h.id,
    c.string-loads s.name h.name,
    c.uint32-loads s.clockrate h.clockrate,
    c.uint32-loads s.channels h.channels,
    c.is_empty_list_lem,
    c.pairs-loads s.parameters h.parameters,
  )
