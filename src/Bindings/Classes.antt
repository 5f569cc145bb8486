-- ===== src/Bindings/Classes.antt =====
-- The classes of src/tgcalls.cpp with their attributes.
use mqtgcalls.Prelude.{ℕ, Bytes, List, [], ◌∷◌, Option, none, some, codes}
use mqtgcalls.RtcServer.{RtcServer}
use mqtgcalls.NativeInstance.Defs.{Ref}
use mqtgcalls.Bindings.{GroupJoinPayload, AudioDevice}
use mqtgcalls.Bindings.Casters.{Casters, ◌>>=◌}
use mqtgcalls.Bindings.Attributes.{Attribute, def_readwrite, def_readwrite_unbound}

-- Structs of the library.
pub record FeedbackType : Type 0 where
  pub kind : Bytes
  pub subtype : Bytes

pub record GroupJoinPayloadVideoPayloadType : Type 0 where
  pub id : ℕ
  pub name : Bytes
  pub clockrate : ℕ
  pub channels : ℕ
  pub feedback_types : List FeedbackType
  pub parameters : List (Bytes × Bytes)

pub record GroupJoinPayloadVideoSourceGroup : Type 0 where
  pub ssrcs : List ℕ
  pub semantics : Bytes

-- The descriptors as Python fills them: each member is a callable, or empty.
pub record FileCallbacks : Type 0 where
  pub get_input_filename : Option Ref
  pub get_output_filename : Option Ref
  pub is_endless_playout : Option Ref
  pub is_playout_paused : Option Ref
  pub is_recording_paused : Option Ref
  pub playout_ended_callback : Option Ref

pub record RawCallbacks : Type 0 where
  pub get_played_buffer_callback : Option Ref
  pub set_recorded_buffer_callback : Option Ref
  pub is_playout_paused : Option Ref
  pub is_recording_paused : Option Ref

module _ {V : Type 0} (c : Casters V) where
  -- `py::init<string, string, int, string, string, bool, bool>()`
  unfoldable pub rtc_server_init : List V → Option RtcServer
  rtc_server_init (ip ∷ ipv6 ∷ port ∷ login ∷ password ∷ is_turn ∷ is_stun ∷ []) = do
    ip' ← c.string.load ip
    ipv6' ← c.string.load ipv6
    port' ← c.int.load port
    login' ← c.string.load login
    password' ← c.string.load password
    is_turn' ← c.bool.load is_turn
    is_stun' ← c.bool.load is_stun
    some (record {
      ip = ip';
      ipv6 = ipv6';
      port = port';
      login = login';
      password = password';
      is_turn = is_turn';
      is_stun = is_stun';
    })
  rtc_server_init args = none

  abbrev pub rtc_server_class : List (Attribute V RtcServer)
  rtc_server_class =
      def_readwrite (codes "ip") c.string (λ s. s.ip) (λ a s. record s { ip = a })
      ∷ def_readwrite (codes "ipv6") c.string (λ s. s.ipv6) (λ a s. record s { ipv6 = a })
      ∷ def_readwrite (codes "port") c.int (λ s. s.port) (λ a s. record s { port = a })
      ∷ def_readwrite (codes "login") c.string (λ s. s.login) (λ a s. record s { login = a })
      ∷ def_readwrite (codes "password") c.string (λ s. s.password)
          (λ a s. record s { password = a })
      ∷ def_readwrite (codes "isTurn") c.bool (λ s. s.is_turn) (λ a s. record s { is_turn = a })
      ∷ def_readwrite (codes "isStun") c.bool (λ s. s.is_stun) (λ a s. record s { is_stun = a })
      ∷ []

  abbrev pub group_join_payload_class : List (Attribute V GroupJoinPayload)
  group_join_payload_class =
      def_readwrite (codes "audioSsrc") c.uint32 (λ s. s.audio_ssrc)
        (λ a s. record s { audio_ssrc = a })
      ∷ def_readwrite (codes "json") c.string (λ s. s.json) (λ a s. record s { json = a })
      ∷ []

  abbrev pub video_payload_type_class : List (Attribute V GroupJoinPayloadVideoPayloadType)
  video_payload_type_class =
      def_readwrite (codes "id") c.uint32 (λ s. s.id) (λ a s. record s { id = a })
      ∷ def_readwrite (codes "name") c.string (λ s. s.name) (λ a s. record s { name = a })
      ∷ def_readwrite (codes "clockrate") c.uint32 (λ s. s.clockrate)
          (λ a s. record s { clockrate = a })
      ∷ def_readwrite (codes "channels") c.uint32 (λ s. s.channels)
          (λ a s. record s { channels = a })
      ∷ def_readwrite_unbound (codes "feedbackTypes") c (λ s. s.feedback_types)
          (λ a s. record s { feedback_types = a })
      ∷ def_readwrite (codes "parameters") c.pairs (λ s. s.parameters)
          (λ a s. record s { parameters = a })
      ∷ []

  abbrev pub video_source_group_class : List (Attribute V GroupJoinPayloadVideoSourceGroup)
  video_source_group_class =
      def_readwrite (codes "ssrcs") c.uint32s (λ s. s.ssrcs) (λ a s. record s { ssrcs = a })
      ∷ def_readwrite (codes "semantics") c.string (λ s. s.semantics)
          (λ a s. record s { semantics = a })
      ∷ []

  abbrev pub file_descriptor_class : List (Attribute V FileCallbacks)
  file_descriptor_class =
      def_readwrite (codes "getInputFilename") c.function (λ s. s.get_input_filename)
        (λ a s. record s { get_input_filename = a })
      ∷ def_readwrite (codes "getOutputFilename") c.function (λ s. s.get_output_filename)
          (λ a s. record s { get_output_filename = a })
      ∷ def_readwrite (codes "isEndlessPlayout") c.function (λ s. s.is_endless_playout)
          (λ a s. record s { is_endless_playout = a })
      ∷ def_readwrite (codes "isPlayoutPaused") c.function (λ s. s.is_playout_paused)
          (λ a s. record s { is_playout_paused = a })
      ∷ def_readwrite (codes "isRecordingPaused") c.function (λ s. s.is_recording_paused)
          (λ a s. record s { is_recording_paused = a })
      ∷ def_readwrite (codes "playoutEndedCallback") c.function (λ s. s.playout_ended_callback)
          (λ a s. record s { playout_ended_callback = a })
      ∷ []

  abbrev pub raw_descriptor_class : List (Attribute V RawCallbacks)
  raw_descriptor_class =
      def_readwrite (codes "setRecordedBufferCallback") c.function
        (λ s. s.set_recorded_buffer_callback) (λ a s. record s { set_recorded_buffer_callback = a })
      ∷ def_readwrite (codes "getPlayedBufferCallback") c.function
          (λ s. s.get_played_buffer_callback) (λ a s. record s { get_played_buffer_callback = a })
      ∷ def_readwrite (codes "isPlayoutPaused") c.function (λ s. s.is_playout_paused)
          (λ a s. record s { is_playout_paused = a })
      ∷ def_readwrite (codes "isRecordingPaused") c.function (λ s. s.is_recording_paused)
          (λ a s. record s { is_recording_paused = a })
      ∷ []

  abbrev pub audio_device_class : List (Attribute V AudioDevice)
  audio_device_class =
      def_readwrite (codes "name") c.string (λ s. s.name) (λ a s. record s { name = a })
      ∷ def_readwrite (codes "guid") c.string (λ s. s.guid) (λ a s. record s { guid = a })
      ∷ []
