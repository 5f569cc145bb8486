-- ===== src/FileAudioDevice/Refinement/Rounds.antt =====
-- A round of each thread (src/FileAudioDevice.cpp) as moves of `Joint`.
use mathlib.Core.Option
use mqtgcalls.Prelude.{
  overlay, Bytes, Bool, true, false, List, [], ◌≡◌, refl, ◌∙◌, arith, not, ◌&&◌, ltb, take, length,
  inl, inr, Bool-cases, if◌then◌else◌,
}
use mqtgcalls.Host.{Event, file_write, playout_ended, file_read}
use mqtgcalls.Host.Files.{FileApi}
use mqtgcalls.FileAudioDevice.Defs.{FileAudioDevice, playout_buffer_size, recording_buffer_size}
use mqtgcalls.FileAudioDevice.Threads.{
  Tick, bytes_at, is_due, play_thread_process, rec_thread_process, record_block, end_round,
}
use mqtgcalls.FileAudioDevice.Invariant.{Inv}
use mqtgcalls.FileAudioDevice.Interleaving.{Worker}
use mqtgcalls.FileAudioDevice.Joint.Trace.{
  if_so, AtMostOne-if_so, is_output, is_ending, JointTrace, done, JointTrace-eq,
}
use mqtgcalls.FileAudioDevice.Joint.Rounds.{
  play_calls, player_at, Round, early, block, rewound, over, record_calls, IsRound, is_over,
  recorder_at, recorder_after, record_round-JointTrace, play_round-JointTrace,
}
use mqtgcalls.FileAudioDevice.Refinement.{joint_of, slept, slept_lem}

module _ {File : Type 0} (api : FileApi File) where
  module _ (t : Tick) (d : FileAudioDevice File) where
    abbrev written : Event
    written =
        file_write
          (take playout_buffer_size (bytes_at (play_thread_process api t d).1.playout_buffer))

    play_calls_lem :
        d.playing ≡ true
        → play_calls true
            (is_due d.last_call_playout_millis t.now)
            d.playout_frames_in_10ms
            (if_so (api.is_open d.output_file && not t.answers.is_recording_paused) written)
            (slept t)
          ≡ (play_thread_process api t d).2
    unfolding play_thread_process
    play_calls_lem on = ground arith

    play_rests : (gone : Bool) → joint_of gone d ≡ joint_of gone (play_thread_process api t d).1
    unfolding play_thread_process
    play_rests gone = ground arith

    play_off : d.playing ≡ false → [] ≡ (play_thread_process api t d).2
    unfolding play_thread_process
    play_off off = ground arith

    pub plays-JointTrace :
        (gone : Bool)
        → Inv d
        → JointTrace
            (play_thread_process api t d).2
            (joint_of gone d)
            (joint_of gone (play_thread_process api t d).1)
    plays-JointTrace gone v = elim (Bool-cases d.playing) [
      | inl on ↦
          let there : player_at Worker.looping (joint_of gone d) ≡ joint_of gone d =
            ground (arith, v.play_thread) in
          JointTrace-eq
            (play_round-JointTrace (joint_of gone d) (is_due d.last_call_playout_millis t.now) _ _
              (slept t) on (AtMostOne-if_so is_output _ written refl) (slept_lem t))
            (play_calls_lem on) there (there ∙ play_rests gone)
      | inr off ↦ JointTrace-eq done (play_off off) refl (play_rests gone)
    ]

  module _ (t : Tick) (d : FileAudioDevice File) where
    abbrev got : Bytes × File
    got = api.read d.input_file recording_buffer_size

    abbrev told : List Event
    told = if_so t.answers.has_playout_ended_callback (playout_ended t.answers.input_filename)

    -- What this round comes to.
    abbrev round_of : Round
    round_of =
        if is_due d.last_call_record_millis t.now
          && (api.is_open d.input_file && not t.answers.is_playout_paused)
        then (if ltb 0 (length got.0)
            then block (file_read recording_buffer_size)
                (bytes_at (Option.map (overlay got.0) d.recording_buffer))
                d.recording_frames_in_10ms
            else (if t.answers.is_endless_playout
                then rewound recording_buffer_size told
                else over recording_buffer_size told))
        else early

    round_of-IsRound : IsRound round_of
    round_of-IsRound = ground (
      arith,
      AtMostOne-if_so is_ending t.answers.has_playout_ended_callback
          (playout_ended t.answers.input_filename) refl,
    )

    record_calls_lem :
        d.recording ≡ true → record_calls round_of (slept t) ≡ (rec_thread_process api t d).2
    unfolding rec_thread_process record_block end_round
    record_calls_lem on = ground arith

    record_over : d.recording ≡ true → is_over round_of ≡ not (rec_thread_process api t d).0
    unfolding rec_thread_process record_block end_round
    record_over on = ground arith

    rec_rests : (gone : Bool) → joint_of gone d ≡ joint_of gone (rec_thread_process api t d).1
    unfolding rec_thread_process record_block end_round
    rec_rests gone = ground arith

    rec_off :
        d.recording ≡ false
        → ([] ≡ (rec_thread_process api t d).2) × ((rec_thread_process api t d).0 ≡ false)
    unfolding rec_thread_process
    rec_off off = ground arith

    stands :
        d.thread_rec ≡ true
        → (o : Bool) → recorder_at (recorder_after o) (joint_of false d) ≡ joint_of o d
    stands there true = ground arith
    stands there false = ground arith

    -- The thread of a device that records may return in this round.
    pub records-JointTrace :
        Inv d
        → JointTrace (rec_thread_process api t d).2 (joint_of false d) (
            joint_of
              (d.recording && not (rec_thread_process api t d).0)
              (rec_thread_process api t d).1)
    records-JointTrace v = elim (Bool-cases d.recording) [
      | inl on ↦
          let there : d.thread_rec ≡ true = v.rec_thread ∙ on in
          JointTrace-eq
            (record_round-JointTrace (joint_of false d) round_of (slept t) on round_of-IsRound
              (slept_lem t))
            (record_calls_lem on) (stands there false)
            (stands there (is_over round_of) ∙ rec_rests _ ∙ ground (arith, record_over on))
      | inr off ↦ JointTrace-eq done (rec_off off).0 refl (rec_rests false ∙ ground arith)
    ]
