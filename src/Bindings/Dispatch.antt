-- ===== src/Bindings/Dispatch.antt =====
-- The methods of `NativeInstance` in src/tgcalls.cpp, by name, with the conversion of arguments.
use mqtgcalls.Prelude.{◌≡◌, Bytes, List, [], ◌∷◌, Option, none, some, codes, if◌then◌else◌}
use mqtgcalls.NativeInstance.Group.{
  emits_join_payload, sets_join_response_payload, sets_is_muted, sets_volume, sets_connection_mode,
  stops_audio_device_module, starts_audio_device_module, restarts_audio_input_device,
  restarts_audio_output_device, gets_playout_devices, gets_recording_devices,
  sets_audio_output_device, sets_audio_input_device,
}
use mqtgcalls.NativeInstance.Methods.{
  Method, setups_group_call, starts_file_call, starts_raw_call, starts_platform_call,
  stops_group_call, calls_group, starts_call, receives_signaling, sets_signaling_callback,
}
use mqtgcalls.Bindings.Casters.{Caster, Casters, ◌===◌, ◌>>=◌}

-- What a call from Python asks of an object.
pub data Request : Type 0 where
  runs : Method → Request
  asks_is_created : Request

-- An overload: its name, and its arguments converted; `none` if they do not convert.
pub record Overload (V : Type 0) : Type 0 where
  pub name : Bytes
  pub convert : List V → Option Request

-- The overloads of a name, in the order of their definition.
unfoldable pub named : {V : Type 0} → List (Overload V) → Bytes → List (Overload V)
unfolding ◌===◌
named [] name = []
named (o ∷ rest) name = if o.name === name then o ∷ named rest name else named rest name

-- How pybind11 chooses among the overloads of a name; `none` is an exception. It calls the first
-- that takes the arguments. No overload below takes by an implicit conversion what a later one
-- takes without.
pub record Resolution (V : Type 0) : Type 0 where
  pub resolve : List (Overload V) → List V → Option Request
  pub resolve-first :
      (o : Overload V) (rest : List (Overload V)) (args : List V) {r : Request}
      → o.convert args ≡ some r
      → resolve (o ∷ rest) args ≡ some r
  pub resolve-next :
      (o : Overload V) (rest : List (Overload V)) (args : List V) {r : Request}
      → o.convert args ≡ none
      → resolve rest args ≡ some r
      → resolve (o ∷ rest) args ≡ some r

unfoldable pub dispatch :
    {V : Type 0} → Resolution V → List (Overload V) → Bytes → List V → Option Request
dispatch resolution overloads name args = resolution.resolve (named overloads name) args

module _ {V : Type 0} where
  abbrev no_argument : Method → List V → Option Request
  no_argument m [] = some (runs m)
  no_argument m args = none

  abbrev pub one_argument : {A : Type 0} → Caster V A → (A → Method) → List V → Option Request
  one_argument a m (x ∷ []) = do x' ← a.load x; some (runs (m x'))
  one_argument a m args = none

  abbrev pub two_arguments :
      {A B : Type 0} → Caster V A → Caster V B → (A → B → Method) → List V → Option Request
  two_arguments a b m (x ∷ y ∷ []) = do x' ← a.load x; y' ← b.load y; some (runs (m x' y'))
  two_arguments a b m args = none

  abbrev pub three_arguments :
      {A B C : Type 0}
      → Caster V A
      → Caster V B
      → Caster V C
      → (A → B → C → Method)
      → List V
      → Option Request
  three_arguments a b c m (x ∷ y ∷ z ∷ []) = do
    x' ← a.load x
    y' ← b.load y
    z' ← c.load z
    some (runs (m x' y' z'))
  three_arguments a b c m args = none

  abbrev pub four_arguments :
      {A B C D : Type 0}
      → Caster V A
      → Caster V B
      → Caster V C
      → Caster V D
      → (A → B → C → D → Method)
      → List V
      → Option Request
  four_arguments a b c d m (x ∷ y ∷ z ∷ w ∷ []) = do
    x' ← a.load x
    y' ← b.load y
    z' ← c.load z
    w' ← d.load w
    some (runs (m x' y' z' w'))
  four_arguments a b c d m args = none

  abbrev asked : List V → Option Request
  asked [] = some asks_is_created
  asked args = none

  abbrev pub overload : Bytes → (List V → Option Request) → Overload V
  overload name convert = record { name = name; convert = convert }

-- `.def` for `.def`.
abbrev pub native_instance_class : {V : Type 0} → Casters V → List (Overload V)
native_instance_class c =
    overload (codes "startCall") (four_arguments c.servers c.auth_key c.bool c.string starts_call)
    ∷ overload (codes "setupGroupCall")
        (three_arguments c.function c.function c.int setups_group_call)
    ∷ overload (codes "startGroupCall") (one_argument c.file_descriptor starts_file_call)
    ∷ overload (codes "startGroupCall") (one_argument c.raw_descriptor starts_raw_call)
    ∷ overload (codes "startGroupCall") (two_arguments c.string c.string starts_platform_call)
    ∷ overload (codes "isGroupCallNativeCreated") asked
    ∷ overload (codes "stopGroupCall") (no_argument stops_group_call)
    ∷ overload (codes "setIsMuted") (one_argument c.bool (λ b. calls_group (sets_is_muted b)))
    ∷ overload (codes "setVolume")
        (two_arguments c.uint32 c.double (λ ssrc volume. calls_group (sets_volume ssrc volume)))
    ∷ overload (codes "restartAudioInputDevice")
        (no_argument (calls_group restarts_audio_input_device))
    ∷ overload (codes "restartAudioOutputDevice")
        (no_argument (calls_group restarts_audio_output_device))
    ∷ overload (codes "stopAudioDeviceModule") (no_argument (calls_group stops_audio_device_module))
    ∷ overload (codes "startAudioDeviceModule")
        (no_argument (calls_group starts_audio_device_module))
    ∷ overload (codes "getPlayoutDevices") (no_argument (calls_group gets_playout_devices))
    ∷ overload (codes "getRecordingDevices") (no_argument (calls_group gets_recording_devices))
    ∷ overload (codes "setAudioOutputDevice")
        (one_argument c.string (λ id. calls_group (sets_audio_output_device id)))
    ∷ overload (codes "setAudioInputDevice")
        (one_argument c.string (λ id. calls_group (sets_audio_input_device id)))
    ∷ overload (codes "setJoinResponsePayload")
        (one_argument c.string (λ p. calls_group (sets_join_response_payload p)))
    ∷ overload (codes "setConnectionMode")
        (two_arguments c.mode c.bool (λ mode keep. calls_group (sets_connection_mode mode keep)))
    ∷ overload (codes "emitJoinPayload")
        (one_argument c.function (λ f. calls_group (emits_join_payload f)))
    ∷ overload (codes "receiveSignalingData") (one_argument c.uint8s receives_signaling)
    ∷ overload (codes "setSignalingDataEmittedCallback")
        (one_argument c.function sets_signaling_callback)
    ∷ []
