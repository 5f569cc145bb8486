-- ===== src/Tests/Whole.antt =====
-- The parts together, from the object of Python to the device.
use mqtgcalls.Prelude.{
  length-replicate, ◌≡◌, refl, true, false, List, [], ◌∷◌, ◌++◌, none, some, pos, codes, arith,
}
use mqtgcalls.Host.MemFile.{MemFile, mem_api, mem_heap, mem_reads, mem_file}
use mqtgcalls.Host.Playback.{captured, endings}
use mqtgcalls.FileAudioDevice.Calls as FileCalls
use mqtgcalls.FileAudioDevice.Defs.{new_device}
use mqtgcalls.FileAudioDevice.Control.{
  attach_audio_buffer, init_recording, start_recording, stop_recording,
}
use mqtgcalls.AudioModule.{restart_audio_input_device}
use mqtgcalls.FileAudioDevice.Threads.{rec_thread_func}
use mqtgcalls.FileAudioDevice.Playback.{IsPaddedTo}
use mqtgcalls.WrappedAudioDeviceModule.{create_file}
use mqtgcalls.NativeInstance.Group.{
  restarts_audio_input_device, start_group_call_file, create_instance_holder, group_of,
  create_audio_device_module, group_call, stop_group_call,
}
use mqtgcalls.NativeInstance.Methods as Methods
use mqtgcalls.NativeInstance.Methods.{starts_file_call, calls_group, stops_group_call}
use mqtgcalls.NativeInstance.Protocol.{next_status}
use mqtgcalls.Program.{
  Program, Opening, Action, python, makes_adm, on_file, act, run, make_adm, make_device, call_file,
  on_module,
}
use mqtgcalls.Program.Invariant.{SoundOutcome}
use mqtgcalls.Program.Safety.{AllAllowed, run-SoundOutcome}
use mqtgcalls.Program.Playback.{
  call_start, StartedPlays, group_call_plays_file, second_module_faults,
}
use mqtgcalls.Program.Relay.{raw_call_start, StartedRelays, group_call_relays}
use mqtgcalls.Host.Turns.{Turn, play_turn, rec_turn, play_turns, rec_turns}
use mqtgcalls.RawAudioDevice.Threads as RawThread
use mqtgcalls.Program.Restart.{restarted, restart_plays_file}
use mqtgcalls.Tests.{silence, raw_round, once, busy, in_name}
use mqtgcalls.Tests.Instance.{emptied, unregistered, unregistered_lem}
use mqtgcalls.Tests.FileDevice.{mem_read_fits}
use mqtgcalls.Tests.FileThreads.{song, two_rounds}

abbrev opening : Opening MemFile
opening = record { output = mem_file []; input = song; answers = once }

abbrev idle : Program MemFile
idle = record {
  native = record {
    instance_holder = none;
    log_to_std_err = true;
    log_path = codes "log";
    outgoing_audio_bitrate_kbit = pos 128;
    signaling_data_emitted_callback = none;
    emit_join_payload_callback = none;
    network_state_updated = none;
    file_audio_device_descriptor = none;
    raw_audio_device_descriptor = none;
  };
  adm = none;
}

group_call_plays_file_example :
    StartedPlays mem_api mem_heap mem_reads emptied unregistered 3
      (1 ∷ 2 ∷ 3 ∷ [])
      in_name
      two_rounds
      (run mem_api mem_heap emptied unregistered
        (call_start mem_api mem_heap mem_reads emptied unregistered opening 3 (pos 0) (pos 0))
        idle)
group_call_plays_file_example =
    group_call_plays_file mem_api mem_heap mem_reads emptied unregistered opening 3 (pos 0) (pos 0)
      idle in_name two_rounds refl refl
      (refl, refl, refl, refl, refl, (refl, refl, refl, refl, refl, tt)) (omega arith)

second_module_faults_example :
    run mem_api mem_heap emptied unregistered
      (call_start mem_api mem_heap mem_reads emptied unregistered opening 3 (pos 0) (pos 0)
        ++ (makes_adm (pos 0) (pos 0) (pos 0) (pos 0)
            ∷ on_file (FileCalls.starts_recording song once)
            ∷ []))
      idle
    ≡ none
second_module_faults_example =
    second_module_faults mem_api mem_heap mem_reads emptied unregistered opening 3 (pos 0) (pos 0)
      (pos 0) (pos 0) idle

-- A call that plays a round, restarts its input and ends.
abbrev call : List (Action MemFile)
call =
    python opening (starts_file_call (some 3))
    ∷ makes_adm (pos 0) (pos 0) (pos 0) (pos 0)
    ∷ on_file FileCalls.inits_recording
    ∷ on_file (FileCalls.starts_recording song once)
    ∷ python opening (calls_group restarts_audio_input_device)
    ∷ python opening stops_group_call
    ∷ []

call_allowed :
    AllAllowed mem_api mem_heap mem_read_fits emptied unregistered false unregistered_lem idle call
unfolding act Methods.step next_status start_group_call_file create_instance_holder make_adm
    group_of create_audio_device_module make_device create_file call_file FileCalls.step on_module
    group_call start_recording init_recording attach_audio_buffer new_device stop_group_call
    FileCalls.checked_step restart_audio_input_device stop_recording
call_allowed =
    ((refl, refl, tt), (refl, (tt, ((refl, refl), ((refl, tt, tt), ((refl, tt, tt), tt))))))

run-SoundOutcome_example : SoundOutcome (run mem_api mem_heap emptied unregistered call idle)
run-SoundOutcome_example =
    run-SoundOutcome mem_api mem_heap mem_read_fits emptied unregistered false unregistered_lem call
      idle call_allowed (tt, tt)

restart_plays_file_example :
    let (more, after, events) =
      rec_thread_func mem_api two_rounds
        (restarted mem_api mem_heap mem_reads opening (busy song)) in
    (more ≡ false) × IsPaddedTo (1 ∷ 2 ∷ 3 ∷ []) (captured events) × (endings events ≡ in_name ∷ [])
restart_plays_file_example =
    restart_plays_file mem_api mem_heap mem_reads opening (busy song) in_name two_rounds refl refl
      refl (refl, refl, refl, refl, refl, (refl, refl, refl, refl, refl, tt)) (omega arith)

-- A round of playout, one of recording and one of playout.
abbrev raw_turns : List (Turn RawThread.Tick)
raw_turns =
    play_turn (raw_round silence 5 8)
    ∷ rec_turn (raw_round silence 6 9)
    ∷ play_turn (raw_round silence 15 18)
    ∷ []

group_call_relays_example :
    StartedRelays 3 raw_turns
      (run mem_api mem_heap emptied unregistered (raw_call_start opening 3 (pos 0) (pos 0)) idle)
group_call_relays_example =
    group_call_relays mem_heap mem_api emptied unregistered opening 3 (pos 0) (pos 0) idle raw_turns
      (unfold play_turns in (refl, length-replicate 1920 0, (refl, length-replicate 1920 0, tt)))
      (unfold rec_turns in (refl, length-replicate 1920 0, tt))
