-- ===== src/Tests/RawDevice.antt =====
-- A raw device.
use mqtgcalls.Prelude.{
  ℕ, ◌≡◌, refl, ◌≤◌, ◌++◌, some, true, List, [], ◌∷◌, pos, arith, length-replicate, length, leb,
}
use mqtgcalls.Host.MemFile.{mem_heap}
use mqtgcalls.Host.Playback.{captured, relayed, overread_free}
use mqtgcalls.RawAudioDevice.Defs.{new_device}
use mqtgcalls.RawAudioDevice.Control.{
  attach_audio_buffer, init_playout, init_recording, start_playout,
}
use mqtgcalls.RawAudioDevice.Threads.{
  Tick, play_thread_process, rec_thread_process, play_thread_func, rec_thread_func,
}
use mqtgcalls.RawAudioDevice.Calls.{
  Call, attaches, inits_playout, inits_recording, starts_playout, starts_recording, stops_playout,
  stops_recording, plays, records, step, run,
}
use mqtgcalls.RawAudioDevice.Invariant.{Inv, AllPermitted, new_device-Inv, raw_run-Inv}
use mqtgcalls.Host.Resources.{nothing, spend_from}
use mqtgcalls.Host.Turns.{Turn, play_turn, rec_turn, play_turns, rec_turns, run_turns}
use mqtgcalls.RawAudioDevice.Resources.{raw_session_frees_all}
use mqtgcalls.RawAudioDevice.Independence.{with_rec}
use mqtgcalls.RawAudioDevice.Turns.{raw_halves, raw_threads_apart}
use mqtgcalls.RawAudioDevice.Relay.{
  heard, spoken, play_thread_func-relays, rec_thread_func-captures, rec_round-overread_free,
}
use mqtgcalls.FileAudioDevice.Joint.Trace.{JointTrace}
use mqtgcalls.RawAudioDevice.Refinement.{joint_of}
use mqtgcalls.RawAudioDevice.Refinement.Sessions.{raw_run-JointTrace}
use mqtgcalls.Tests.{busy_raw, raw_round, silence}

abbrev session : List Call
session =
    attaches
    ∷ inits_playout
    ∷ starts_playout
    ∷ plays (raw_round silence 5 8)
    ∷ inits_recording
    ∷ starts_recording
    ∷ records (raw_round silence 5 8)
    ∷ stops_playout
    ∷ []

silence_fits : length silence ≤ 1920
silence_fits = omega (arith, length-replicate {A = ℕ} 1920 0)

session_permitted : AllPermitted mem_heap (new_device (pos 0) (pos 3)) session
unfolding step init_recording play_thread_process start_playout init_playout attach_audio_buffer
    new_device
session_permitted = (tt, (tt, (tt, (silence_fits, (tt, ((refl, refl), (tt, (tt, tt))))))))

-- The session leaves the recording side at work, for the last two stops.
raw_session_frees_all_example :
    spend_from
      (some nothing)
      (run mem_heap
        (session ++ (stops_playout ∷ stops_recording ∷ []))
        (new_device (pos 0) (pos 3))).2
    ≡ some nothing
raw_session_frees_all_example =
    raw_session_frees_all mem_heap (pos 0) (pos 3) session session_permitted

raw_run-Inv_example : Inv (run mem_heap session (new_device (pos 0) (pos 3))).1
raw_run-Inv_example =
    raw_run-Inv mem_heap session (new_device (pos 0) (pos 3)) session_permitted
      (new_device-Inv (pos 0) (pos 3))

abbrev two_rounds : List Tick
two_rounds = raw_round silence 5 8 ∷ raw_round silence 15 18 ∷ []

play_thread_func-relays_example :
    ((play_thread_func two_rounds busy_raw).0 ≡ true)
    × (relayed (play_thread_func two_rounds busy_raw).2 ≡ heard two_rounds)
play_thread_func-relays_example =
    play_thread_func-relays two_rounds busy_raw
      (record { playing = refl; has_buffer = (silence, refl, length-replicate 1920 0) })
      (refl, length-replicate 1920 0, (refl, length-replicate 1920 0, tt))

rec_thread_func-captures_example :
    ((rec_thread_func two_rounds busy_raw).0 ≡ true)
    × (captured (rec_thread_func two_rounds busy_raw).2 ≡ spoken two_rounds)
rec_thread_func-captures_example =
    rec_thread_func-captures two_rounds busy_raw refl refl
      (refl, length-replicate 1920 0, (refl, length-replicate 1920 0, tt))

-- A callback that gives three bytes.
rec_round-overread_free_example :
    overread_free (rec_thread_process (raw_round (1 ∷ 2 ∷ 3 ∷ []) 5 8) busy_raw).2 ≡ leb 1920 3
rec_round-overread_free_example =
    rec_round-overread_free (raw_round (1 ∷ 2 ∷ 3 ∷ []) 5 8) busy_raw refl refl refl refl

-- Two rounds of playout around one of recording.
abbrev three_turns : List (Turn Tick)
three_turns =
    play_turn (raw_round silence 5 8)
    ∷ rec_turn (raw_round silence 6 9)
    ∷ play_turn (raw_round silence 15 18)
    ∷ []

raw_threads_apart_example : run_turns raw_halves three_turns true true busy_raw ≡ (
    let (p, d', ps) = play_thread_func (play_turns three_turns) busy_raw in
    let (r, d'', rs) = rec_thread_func (rec_turns three_turns) busy_raw in
    ((p, ps), (r, rs), with_rec d' d''))
raw_threads_apart_example = raw_threads_apart three_turns busy_raw

raw_run-JointTrace_example :
    JointTrace
      (run mem_heap session (new_device (pos 0) (pos 3))).2
      (joint_of (new_device (pos 0) (pos 3)))
      (joint_of (run mem_heap session (new_device (pos 0) (pos 3))).1)
raw_run-JointTrace_example =
    raw_run-JointTrace mem_heap session (new_device (pos 0) (pos 3)) session_permitted
      (new_device-Inv (pos 0) (pos 3))
