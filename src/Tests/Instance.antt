-- ===== src/Tests/Instance.antt =====
-- The object that Python holds, its servers and its texts.
use mqtgcalls.Prelude.{
  ◌≡◌, refl, Bool, true, false, List, [], ◌∷◌, ℤ, pos, none, some, Bytes, codes, arith,
}
use mqtgcalls.RtcServer.{add_servers}
use mqtgcalls.RtcServer.Servers.{all_endpoints, add_servers_lem}
use mqtgcalls.NativeInstance.Defs.{CallDescriptor, NativeInstance, new_instance}
use mqtgcalls.NativeInstance.Group.{sets_is_muted}
use mqtgcalls.NativeInstance.Call.{version}
use mqtgcalls.NativeInstance.Methods.{
  Method, setups_group_call, starts_file_call, stops_group_call, calls_group, run,
}
use mqtgcalls.NativeInstance.Protocol.{
  status_after, next_status, fresh, outcome_status, run-new_instance,
}
use mqtgcalls.Bindings.{rtc_server_repr}
use mqtgcalls.Bindings.Reprs.{values, values-rtc_server_repr}
use mqtgcalls.Tests.{server}

add_servers_lem_example : add_servers [] (server ∷ []) ≡ all_endpoints (server ∷ [])
add_servers_lem_example = add_servers_lem [] (server ∷ [])

abbrev pub emptied : Bytes → Bytes
emptied s = []

abbrev pub unregistered : Bytes → CallDescriptor → Bool
unregistered v d = false

abbrev methods : List Method
methods =
    setups_group_call (some 1) (some 2) (pos 96)
    ∷ starts_file_call (some 3)
    ∷ calls_group (sets_is_muted true)
    ∷ stops_group_call
    ∷ calls_group (sets_is_muted false)
    ∷ []

pub unregistered_lem : (d : CallDescriptor) → unregistered version d ≡ false
unregistered_lem d = refl

run-new_instance_example :
    outcome_status
      (run emptied unregistered methods (new_instance (codes "2.0.0") false true (codes "log")).0)
    ≡ status_after false methods fresh
run-new_instance_example =
    run-new_instance emptied unregistered false unregistered_lem (codes "2.0.0") false true
      (codes "log") methods

-- The last call of these faults: there is no group instance any more.
methods_fault : status_after false methods fresh ≡ none
unfolding status_after next_status
methods_fault = refl

abbrev instance_0 : NativeInstance
instance_0 = record {
  instance_holder = none;
  log_to_std_err = false;
  log_path = codes "calls.log";
  outgoing_audio_bitrate_kbit = pos 128;
  signaling_data_emitted_callback = none;
  emit_join_payload_callback = none;
  network_state_updated = none;
  file_audio_device_descriptor = none;
  raw_audio_device_descriptor = none;
}

-- How a stream would print the one port that is used here.
abbrev show_port : ℤ → Bytes
show_port i = codes "3478"

values-rtc_server_repr_example :
    values (rtc_server_repr show_port server)
    ≡ codes "10.0.0.1"
      ∷ codes "fe80::1"
      ∷ codes "3478"
      ∷ codes "user"
      ∷ codes "secret"
      ∷ codes "1"
      ∷ codes "1"
      ∷ []
values-rtc_server_repr_example =
    values-rtc_server_repr show_port server (omega arith) (omega arith) (omega arith) (omega arith)
      (omega arith)
