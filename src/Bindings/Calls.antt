-- ===== src/Bindings/Calls.antt =====
-- Calls from Python to the methods of `NativeInstance` (src/tgcalls.cpp).
use mqtgcalls.Prelude.{Bytes, List, [], ◌∷◌, none, some, ◌≡◌, refl, ap, ◌∙◌, codes}
use mqtgcalls.NativeInstance.Group.{
  GroupCall, emits_join_payload, sets_join_response_payload, sets_is_muted, sets_volume,
  sets_connection_mode, stops_audio_device_module, starts_audio_device_module,
  restarts_audio_input_device, restarts_audio_output_device, gets_playout_devices,
  gets_recording_devices, sets_audio_output_device, sets_audio_input_device,
}
use mqtgcalls.NativeInstance.Methods.{
  Method, setups_group_call, starts_file_call, starts_raw_call, starts_platform_call,
  stops_group_call, calls_group, starts_call, receives_signaling, sets_signaling_callback,
}
use mqtgcalls.Bindings.Casters.{Caster, Casters}
use mqtgcalls.Bindings.Dispatch.{
  Request, Overload, runs, named, Resolution, dispatch, native_instance_class, overload,
  one_argument, two_arguments, three_arguments, four_arguments,
}
use mqtgcalls.Bindings.Spelling.{
  group_name, python_name, group_arguments, python_arguments, IsInRange, taken_as,
}

module _ {V : Type 0} where
  -- Arguments that convert, by their number.
  one-taken :
      {A : Type 0} (a : Caster V A) (m : A → Method) {x : A}
      → a.load (a.cast x) ≡ some x
      → one_argument a m (a.cast x ∷ []) ≡ some (runs (m x))
  one-taken a m p = rw p

  two-taken :
      {A B : Type 0} (a : Caster V A) (b : Caster V B) (m : A → B → Method) {x : A} {y : B}
      → a.load (a.cast x) ≡ some x
      → b.load (b.cast y) ≡ some y
      → two_arguments a b m (a.cast x ∷ b.cast y ∷ []) ≡ some (runs (m x y))
  two-taken a b m p q = rw (p, q)

  three-taken :
      {A B C : Type 0} (a : Caster V A) (b : Caster V B) (c : Caster V C) (m : A → B → C → Method)
      {x : A} {y : B} {z : C}
      → a.load (a.cast x) ≡ some x
      → b.load (b.cast y) ≡ some y
      → c.load (c.cast z) ≡ some z
      → three_arguments a b c m (a.cast x ∷ b.cast y ∷ c.cast z ∷ []) ≡ some (runs (m x y z))
  three-taken a b c m p q r = rw (p, q, r)

  four-taken :
      {A B C D : Type 0} (a : Caster V A) (b : Caster V B) (c : Caster V C) (d : Caster V D)
      (m : A → B → C → D → Method) {x : A} {y : B} {z : C} {w : D}
      → a.load (a.cast x) ≡ some x
      → b.load (b.cast y) ≡ some y
      → c.load (c.cast z) ≡ some z
      → d.load (d.cast w) ≡ some w
      → four_arguments a b c d m (a.cast x ∷ b.cast y ∷ c.cast z ∷ d.cast w ∷ [])
        ≡ some (runs (m x y z w))
  four-taken a b c d m p q r s = rw (p, q, r, s)

module _ {V : Type 0} (resolution : Resolution V) where
  dispatch-resolve :
      (table : List (Overload V)) (name : Bytes) (os : List (Overload V)) (args : List V)
      {r : Request}
      → named table name ≡ os
      → resolution.resolve os args ≡ some r
      → dispatch resolution table name args ≡ some r
  unfolding dispatch
  dispatch-resolve table name os args e taken = ap (λ os. resolution.resolve os args) e ∙ taken

  dispatch-only :
      (table : List (Overload V)) (name : Bytes) (o : Overload V) (args : List V) {r : Request}
      → named table name ≡ o ∷ []
      → o.convert args ≡ some r
      → dispatch resolution table name args ≡ some r
  dispatch-only table name o args e taken =
      dispatch-resolve table name (o ∷ []) args e (resolution.resolve-first o [] args taken)

module _ {V : Type 0} (resolution : Resolution V) (c : Casters V) where
  dispatch-group :
      (g : GroupCall)
      → IsInRange c (calls_group g)
      → dispatch resolution (native_instance_class c) (group_name g) (group_arguments c g)
        ≡ some (runs (calls_group g))
  unfolding named
  dispatch-group (emits_join_payload f) h =
      dispatch-only resolution _ _ _ _ refl (one-taken c.function _ (c.function-loads f))
  dispatch-group (sets_join_response_payload p) h =
      dispatch-only resolution _ _ _ _ refl (one-taken c.string _ (c.string-loads p h))
  dispatch-group (sets_is_muted b) h =
      dispatch-only resolution _ _ _ _ refl (one-taken c.bool _ (c.bool-loads b))
  dispatch-group (sets_volume ssrc volume) h =
      dispatch-only resolution _ _ _ _ refl
        (two-taken c.uint32 c.double _ (c.uint32-loads ssrc h) (c.double-loads volume))
  dispatch-group (sets_connection_mode mode keep) h =
      dispatch-only resolution _ _ _ _ refl
        (two-taken c.mode c.bool _ (c.mode-loads mode) (c.bool-loads keep))
  dispatch-group (sets_audio_output_device id) h =
      dispatch-only resolution _ _ _ _ refl (one-taken c.string _ (c.string-loads id h))
  dispatch-group (sets_audio_input_device id) h =
      dispatch-only resolution _ _ _ _ refl (one-taken c.string _ (c.string-loads id h))
  dispatch-group stops_audio_device_module h = dispatch-only resolution _ _ _ _ refl refl
  dispatch-group starts_audio_device_module h = dispatch-only resolution _ _ _ _ refl refl
  dispatch-group restarts_audio_input_device h = dispatch-only resolution _ _ _ _ refl refl
  dispatch-group restarts_audio_output_device h = dispatch-only resolution _ _ _ _ refl refl
  dispatch-group gets_playout_devices h = dispatch-only resolution _ _ _ _ refl refl
  dispatch-group gets_recording_devices h = dispatch-only resolution _ _ _ _ refl refl

  -- The arguments of the overloads of `startGroupCall`.
  dispatch-starts :
      (args : List V) {r : Request}
      → resolution.resolve
          (overload (codes "startGroupCall") (one_argument c.file_descriptor starts_file_call)
            ∷ overload (codes "startGroupCall") (one_argument c.raw_descriptor starts_raw_call)
            ∷ overload
                (codes "startGroupCall")
                (two_arguments c.string c.string starts_platform_call)
            ∷ [])
          args
        ≡ some r
      → dispatch resolution (native_instance_class c) (codes "startGroupCall") args ≡ some r
  unfolding named
  dispatch-starts args = dispatch-resolve resolution _ _ _ args refl

  -- Over any conversions and any choice of overloads with the laws of their interfaces, a call
  -- from Python of a bound method, by its name and with its arguments converted to Python, runs
  -- that method with those arguments, if its numbers are ones that the C++ types have, its key
  -- has 256 bytes and its strings are texts, with one exception: the start of a group call with
  -- no raw descriptor runs the start with no file descriptor.
  pub dispatch_lem :
      (m : Method)
      → IsInRange c m
      → dispatch resolution (native_instance_class c) (python_name m) (python_arguments c m)
        ≡ some (runs (taken_as m))
  unfolding named
  dispatch_lem (setups_group_call emit state bitrate) h = dispatch-only resolution _ _ _ _ refl (
      three-taken c.function c.function c.int _ (c.function-loads emit) (c.function-loads state)
        (c.int-loads bitrate h))
  dispatch_lem stops_group_call h = dispatch-only resolution _ _ _ _ refl refl
  dispatch_lem (starts_call servers key outgoing path) h = dispatch-only resolution _ _ _ _ refl (
      four-taken c.servers c.auth_key c.bool c.string _ (c.servers-loads servers)
        (c.auth_key-loads key h.0) (c.bool-loads outgoing) (c.string-loads path h.1))
  dispatch_lem (receives_signaling signal) h =
      dispatch-only resolution _ _ _ _ refl (one-taken c.uint8s _ (c.uint8s-loads signal h))
  dispatch_lem (sets_signaling_callback f) h =
      dispatch-only resolution _ _ _ _ refl (one-taken c.function _ (c.function-loads f))
  dispatch_lem (calls_group g) h = dispatch-group g h
  dispatch_lem (starts_file_call descriptor) h = dispatch-starts _ (
      resolution.resolve-first _ _ _
        (one-taken c.file_descriptor starts_file_call (c.file_descriptor-loads descriptor)))
  dispatch_lem (starts_raw_call (some r)) h = dispatch-starts _ (
      resolution.resolve-next _ _ _ (rw (c.raw-file r)) (
        resolution.resolve-first _ _ _
          (one-taken c.raw_descriptor starts_raw_call (c.raw_descriptor-loads (some r)))))
  dispatch_lem (starts_raw_call none) h =
      dispatch-starts _ (resolution.resolve-first _ _ _ (rw c.none-file))
  dispatch_lem (starts_platform_call input output) h = dispatch-starts _ (
      resolution.resolve-next _ _ _ refl (
        resolution.resolve-next _ _ _ refl (
          resolution.resolve-first _ _ _ (
            two-taken c.string c.string starts_platform_call (c.string-loads input h.0)
              (c.string-loads output h.1)))))
