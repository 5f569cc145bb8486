-- ===== src/NativeInstance/Starts.antt =====
-- What the start of a call, or of a group call, hands to the library.
use mathlib.Core.Option
use mqtgcalls.Prelude.{
  Bytes, Bool, true, false, Option, none, some, ℤ, [], ◌∷◌, ◌≡◌, refl, ◌⊎◌, arith,
}
use mqtgcalls.NativeInstance.Defs.{Ref, Factory, NativeInstance, network_state_to, join_payload_to}
use mqtgcalls.NativeInstance.Group.{
  GroupCall, passed_on, group_of, setup_group_call, create_instance_holder, start_group_call_file,
  group_call, is_group_call_native_created, on_network_state_updated, on_join_payload,
}

-- Each call of a group instance is passed on, with the object unchanged, exactly if
-- isGroupCallNativeCreated holds, and faults otherwise.
pub group_call_result :
    (c : GroupCall) (s : NativeInstance)
    → ((is_group_call_native_created s ≡ true) × (group_call c s ≡ some (s, passed_on c ∷ [])))
      ⊎ ((is_group_call_native_created s ≡ false) × (group_call c s ≡ none))
unfolding group_call is_group_call_native_created
group_call_result c s = ground arith

module _ (moved_from : Bytes → Bytes) where
  -- Of two group calls started one after the other on one object, the first logs to the path that
  -- the object was made with, the second to what a move leaves of that path.
  pub restart_log_path :
      (s : NativeInstance) (f g : Factory) (input output input' output' : Bytes)
      → let first = (create_instance_holder moved_from s f input output).0 in
        let second = (create_instance_holder moved_from first g input' output').0 in
        (Option.map (λ d. d.log_path) (group_of first) ≡ some s.log_path)
        × (Option.map (λ d. d.log_path) (group_of second) ≡ some (moved_from s.log_path))
  unfolding create_instance_holder group_of
  restart_log_path s f g input output input' output' = (refl, refl)

  -- After setupGroupCall and a start with a file descriptor, the network state and the join
  -- payload go to the callbacks that were set up. After a second setupGroupCall the same group
  -- call gives them to the new callbacks, while its bitrate is still the one from before it
  -- started.
  pub callbacks_follow_setup :
      (s : NativeInstance) (emit state emit' state' : Ref) (bitrate bitrate' : ℤ) (d : Option Ref)
      (connected : Bool) (payload : Bytes)
      → let started =
          (start_group_call_file moved_from
            (setup_group_call s (some emit) (some state) bitrate)
            d).0 in
        let again = setup_group_call started (some emit') (some state') bitrate' in
        (on_network_state_updated started connected
          ≡ some (started, network_state_to state connected ∷ []))
        × (on_join_payload started payload ≡ some (started, join_payload_to emit payload ∷ []))
        × (on_network_state_updated again connected
            ≡ some (again, network_state_to state' connected ∷ []))
        × (on_join_payload again payload ≡ some (again, join_payload_to emit' payload ∷ []))
        × (Option.map (λ g. g.outgoing_audio_bitrate_kbit) (group_of again) ≡ some bitrate)
  unfolding setup_group_call start_group_call_file create_instance_holder on_network_state_updated
      on_join_payload group_of
  callbacks_follow_setup s emit state emit' state' bitrate bitrate' d connected payload =
      (refl, refl, refl, refl, refl)
