-- ===== src/FileAudioDevice/Refinement/Calls.antt =====
-- The calls of the audio module on a file device (src/FileAudioDevice.cpp) as moves of `Joint`.
use mqtgcalls.Prelude.{
  Bool, true, false, [], ◌∷◌, ◌++◌, ◌≡◌, refl, arith, not, ◌||◌, inl, inr, Bool-cases, is_empty,
}
use mqtgcalls.Host.{
  Event, play_thread, rec_thread, stop_thread, new_buffer, delete_buffer, open_output, open_input,
  close_output, close_input,
}
use mqtgcalls.Host.Files.{FileApi, Heap}
use mqtgcalls.FileAudioDevice.Defs.{FileAudioDevice, FileAudioDeviceDescriptor}
use mqtgcalls.FileAudioDevice.Control.{
  is_null, start_playout, stop_playout, start_recording, stop_recording,
}
use mqtgcalls.FileAudioDevice.Invariant.{Inv}
use mqtgcalls.FileAudioDevice.Joint.Trace.{
  if_so, AtMostOne-if_so, is_new_buffer, is_delete_buffer, is_opening, JointTrace, done,
  JointTrace-eq,
}
use mqtgcalls.FileAudioDevice.Joint.Starts.{
  OpeningCalls, play_end, play_started, start_play-JointTrace, stop_calls, play_stopped,
  stop_play-JointTrace, rec_end, rec_started, start_rec-JointTrace, rec_stopped,
  stop_rec-JointTrace,
}
use mqtgcalls.FileAudioDevice.Refinement.{joint_of}

OpeningCalls-if_so :
    (ok named : Bool) (e : Event)
    → is_opening e ≡ true
    → (ok || named) ≡ true
    → OpeningCalls ok (if_so named e)
OpeningCalls-if_so true true e i h = i
OpeningCalls-if_so true false e i h = tt
OpeningCalls-if_so false true e i h = i
OpeningCalls-if_so false false e i h = cc

module _ {File : Type 0} (api : FileApi File) (heap : Heap) where
  module _ (opened : File) (answers : FileAudioDeviceDescriptor) (d : FileAudioDevice File) where
    -- Whether the start succeeds.
    abbrev play_opens : Bool
    play_opens = is_empty answers.output_filename || api.is_open opened

    start_play_calls :
        Inv d
        → d.playing ≡ false
        → if_so (is_null d.playout_buffer) (new_buffer play_thread)
            ++ (if_so (not (is_empty answers.output_filename)) (open_output answers.output_filename)
                ++ (play_end play_opens ∷ []))
          ≡ (start_playout api heap opened answers d).2
    unfolding start_playout
    start_play_calls v off = ground arith

    start_play_ends :
        (gone : Bool)
        → Inv d
        → d.playing ≡ false
        → play_started play_opens (joint_of gone d)
          ≡ joint_of gone (start_playout api heap opened answers d).1
    unfolding start_playout
    start_play_ends gone v off = ground arith

    start_play_nothing :
        (gone : Bool)
        → d.playing ≡ true
        → ([] ≡ (start_playout api heap opened answers d).2)
          × (joint_of gone d ≡ joint_of gone (start_playout api heap opened answers d).1)
    unfolding start_playout
    start_play_nothing gone on = ground arith

    pub starts_playout-JointTrace :
        (gone : Bool)
        → Inv d
        → JointTrace
            (start_playout api heap opened answers d).2
            (joint_of gone d)
            (joint_of gone (start_playout api heap opened answers d).1)
    starts_playout-JointTrace gone v = elim (Bool-cases d.playing) [
      | inl on ↦
          let (silent, rests) = start_play_nothing gone on in JointTrace-eq done silent refl rests
      | inr off ↦
          JointTrace-eq
            (start_play-JointTrace (joint_of gone d) play_opens _ _ off
              (AtMostOne-if_so (is_new_buffer play_thread) (is_null d.playout_buffer) _ refl)
              (OpeningCalls-if_so play_opens (not (is_empty answers.output_filename)) _ refl
                (ground arith)))
            (start_play_calls v off) refl (start_play_ends gone v off)
    ]

    abbrev rec_opens : Bool
    rec_opens = is_empty answers.input_filename || api.is_open opened

    start_rec_calls :
        Inv d
        → d.recording ≡ false
        → if_so (is_null d.recording_buffer) (new_buffer rec_thread)
            ++ (if_so (not (is_empty answers.input_filename)) (open_input answers.input_filename)
                ++ (rec_end rec_opens ∷ []))
          ≡ (start_recording api heap opened answers d).2
    unfolding start_recording
    start_rec_calls v off = ground arith

    start_rec_ends :
        (gone : Bool)
        → Inv d
        → d.recording ≡ false
        → rec_started rec_opens (joint_of gone d)
          ≡ joint_of false (start_recording api heap opened answers d).1
    unfolding start_recording
    start_rec_ends gone v off = ground arith

    pub starts_recording-JointTrace :
        (gone : Bool)
        → Inv d
        → d.recording ≡ false
        → JointTrace
            (start_recording api heap opened answers d).2
            (joint_of gone d)
            (joint_of false (start_recording api heap opened answers d).1)
    starts_recording-JointTrace gone v off =
        JointTrace-eq
          (start_rec-JointTrace (joint_of gone d) rec_opens _ _ off
            (AtMostOne-if_so (is_new_buffer rec_thread) (is_null d.recording_buffer) _ refl)
            (OpeningCalls-if_so rec_opens (not (is_empty answers.input_filename)) _ refl
              (ground arith)))
          (start_rec_calls v off) refl (start_rec_ends gone v off)

  module _ (d : FileAudioDevice File) (gone : Bool) where
    stop_play_calls :
        stop_calls d.thread_play
          (stop_thread play_thread)
          (if_so (not (is_null d.playout_buffer)) (delete_buffer play_thread))
          (close_output ∷ [])
        ≡ (stop_playout api d).2
    unfolding stop_playout
    stop_play_calls = ground arith

    stop_play_ends : play_stopped (joint_of gone d) ≡ joint_of gone (stop_playout api d).1
    unfolding stop_playout
    stop_play_ends = ground arith

    pub stops_playout-JointTrace :
        JointTrace (stop_playout api d).2 (joint_of gone d) (joint_of gone (stop_playout api d).1)
    stops_playout-JointTrace =
        JointTrace-eq
          (stop_play-JointTrace (joint_of gone d) d.thread_play _ (close_output ∷ [])
            (AtMostOne-if_so (is_delete_buffer play_thread) (not (is_null d.playout_buffer)) _ refl)
            refl)
          stop_play_calls refl stop_play_ends

    stop_rec_calls :
        stop_calls d.thread_rec
          (stop_thread rec_thread)
          (if_so (not (is_null d.recording_buffer)) (delete_buffer rec_thread))
          (close_input ∷ [])
        ≡ (stop_recording api d).2
    unfolding stop_recording
    stop_rec_calls = ground arith

    stop_rec_ends : rec_stopped (joint_of gone d) ≡ joint_of false (stop_recording api d).1
    unfolding stop_recording
    stop_rec_ends = ground arith

    pub stops_recording-JointTrace :
        JointTrace
          (stop_recording api d).2
          (joint_of gone d)
          (joint_of false (stop_recording api d).1)
    stops_recording-JointTrace =
        JointTrace-eq
          (stop_rec-JointTrace (joint_of gone d) d.thread_rec gone _ (close_input ∷ [])
            (AtMostOne-if_so (is_delete_buffer rec_thread) (not (is_null d.recording_buffer)) _
              refl)
            refl)
          stop_rec_calls refl stop_rec_ends
