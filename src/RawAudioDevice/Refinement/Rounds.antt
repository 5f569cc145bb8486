-- ===== src/RawAudioDevice/Refinement/Rounds.antt =====
-- A round of each thread (src/RawAudioDevice.cpp) as moves of `Joint`.
use mathlib.Core.Option
use mqtgcalls.Prelude.{
  ◌+◌, ◌-◌, true, false, List, [], ◌≡◌, refl, ◌∙◌, arith, not, ◌&&◌, ltb, overlay, take, inl, inr,
  Bool-cases, if◌then◌else◌,
}
use mqtgcalls.Host.{Event, sleep_ms, put_recorded, get_played}
use mqtgcalls.FileAudioDevice.Threads.{bytes_at, is_due}
use mqtgcalls.FileAudioDevice.Interleaving.{Worker}
use mqtgcalls.FileAudioDevice.RecInterleaving.{Recorder}
use mqtgcalls.FileAudioDevice.Joint.Trace.{
  if_so, AtMostOne, AtMostOne-if_so, is_output, is_sleep, JointTrace, done, JointTrace-eq,
}
use mqtgcalls.FileAudioDevice.Joint.Rounds.{
  play_calls, player_at, play_round-JointTrace, Round, early, block, record_calls, IsRound,
  recorder_at, record_round-JointTrace, is_over,
}
use mqtgcalls.RawAudioDevice.Defs.{RawAudioDevice, playout_buffer_size, recording_buffer_size}
use mqtgcalls.RawAudioDevice.Threads.{Tick, play_thread_process, rec_thread_process}
use mqtgcalls.RawAudioDevice.Invariant.{Inv}
use mqtgcalls.RawAudioDevice.Refinement.{joint_of}

abbrev slept : Tick → List Event
slept t = if_so (ltb t.later (t.now + 10)) (sleep_ms (t.now + 10 - t.later))

slept_lem : (t : Tick) → AtMostOne is_sleep (slept t)
slept_lem t = AtMostOne-if_so is_sleep (ltb t.later (t.now + 10)) _ refl

module _ (t : Tick) (d : RawAudioDevice) where
  abbrev given : Event
  given =
      put_recorded
        (take playout_buffer_size (bytes_at (Option.map (overlay t.samples) d.playout_buffer)))
        playout_buffer_size

  play_calls_lem :
      d.playing ≡ true
      → play_calls true
          (is_due d.last_call_playout_millis t.now)
          d.playout_frames_in_10ms
          (if_so (not t.answers.is_recording_paused) given)
          (slept t)
        ≡ (play_thread_process t d).2
  unfolding play_thread_process
  play_calls_lem on = ground arith

  play_rests : joint_of d ≡ joint_of (play_thread_process t d).1
  unfolding play_thread_process
  play_rests = ground arith

  play_off : d.playing ≡ false → [] ≡ (play_thread_process t d).2
  unfolding play_thread_process
  play_off off = ground arith

  pub plays-JointTrace :
      Inv d
      → JointTrace (play_thread_process t d).2 (joint_of d) (joint_of (play_thread_process t d).1)
  plays-JointTrace v = elim (Bool-cases d.playing) [
    | inl on ↦
        let there : player_at Worker.looping (joint_of d) ≡ joint_of d =
          ground (arith, v.play_thread) in
        JointTrace-eq
          (play_round-JointTrace (joint_of d) (is_due d.last_call_playout_millis t.now) _ _
            (slept t) on (AtMostOne-if_so is_output _ given refl) (slept_lem t))
          (play_calls_lem on) there (there ∙ play_rests)
    | inr off ↦ JointTrace-eq done (play_off off) refl play_rests
  ]

  -- What this round comes to.
  abbrev round_of : Round
  round_of =
      if is_due d.last_call_record_millis t.now && not t.answers.is_playout_paused
      then block (get_played recording_buffer_size) t.answers.played d.recording_frames_in_10ms
      else early

  round_of-IsRound : (IsRound round_of) × (is_over round_of ≡ false)
  round_of-IsRound = ground arith

  record_calls_lem :
      d.recording ≡ true → record_calls round_of (slept t) ≡ (rec_thread_process t d).2
  unfolding rec_thread_process
  record_calls_lem on = ground arith

  rec_rests : joint_of d ≡ joint_of (rec_thread_process t d).1
  unfolding rec_thread_process
  rec_rests = ground arith

  rec_off : d.recording ≡ false → [] ≡ (rec_thread_process t d).2
  unfolding rec_thread_process
  rec_off off = ground arith

  pub records-JointTrace :
      Inv d
      → JointTrace (rec_thread_process t d).2 (joint_of d) (joint_of (rec_thread_process t d).1)
  records-JointTrace v = elim (Bool-cases d.recording) [
    | inl on ↦
        let there : recorder_at Recorder.looping (joint_of d) ≡ joint_of d =
          ground (arith, v.rec_thread) in
        JointTrace-eq
          (record_round-JointTrace (joint_of d) round_of (slept t) on round_of-IsRound.0
            (slept_lem t))
          (record_calls_lem on) there (rw round_of-IsRound.1 (there ∙ rec_rests))
    | inr off ↦ JointTrace-eq done (rec_off off) refl rec_rests
  ]
