-- ===== src/RawAudioDevice/Refinement/Calls.antt =====
-- The calls of the audio module on a raw device (src/RawAudioDevice.cpp) as moves of `Joint`.
use mqtgcalls.Prelude.{
  true, false, [], ◌∷◌, ◌++◌, ◌≡◌, refl, arith, not, ◌&&◌, inl, inr, Bool-cases,
}
use mqtgcalls.Host.{
  play_thread, rec_thread, stop_thread, new_buffer, delete_buffer, lock, unlock,
  set_playout_sample_rate, set_playout_channels, set_recording_sample_rate, set_recording_channels,
}
use mqtgcalls.Host.Files.{Heap}
use mqtgcalls.FileAudioDevice.Control.{is_null}
use mqtgcalls.FileAudioDevice.Joint.Trace.{
  if_so, AtMostOne-if_so, is_new_buffer, is_delete_buffer, JointTrace, done, JointTrace-eq,
}
use mqtgcalls.FileAudioDevice.Joint.Starts.{
  play_end, play_started, start_play-JointTrace, stop_calls, play_stopped, stop_play-JointTrace,
  rec_end, rec_started, start_rec-JointTrace, rec_stopped, stop_rec-JointTrace, others-JointTrace,
}
use mqtgcalls.FileAudioDevice.Refinement.Formats.{format_if, format_if-AllSettings}
use mqtgcalls.RawAudioDevice.Defs.{
  RawAudioDevice, playout_fixed_sample_rate, playout_num_channels, recording_fixed_sample_rate,
  recording_num_channels,
}
use mqtgcalls.RawAudioDevice.Control.{
  init_playout, init_recording, attach_audio_buffer, start_playout, stop_playout, start_recording,
  stop_recording,
}
use mqtgcalls.RawAudioDevice.Invariant.{Inv}
use mqtgcalls.RawAudioDevice.Refinement.{joint_of}

module _ (heap : Heap) (d : RawAudioDevice) where
  start_play_lem :
      Inv d
      → d.playing ≡ false
      → (if_so (is_null d.playout_buffer) (new_buffer play_thread) ++ (play_end true ∷ [])
          ≡ (start_playout heap d).2)
        × (play_started true (joint_of d) ≡ joint_of (start_playout heap d).1)
  unfolding start_playout
  start_play_lem v off = ground arith

  start_play_nothing :
      d.playing ≡ true
      → ([] ≡ (start_playout heap d).2) × (joint_of d ≡ joint_of (start_playout heap d).1)
  unfolding start_playout
  start_play_nothing on = ground arith

  pub starts_playout-JointTrace :
      Inv d → JointTrace (start_playout heap d).2 (joint_of d) (joint_of (start_playout heap d).1)
  starts_playout-JointTrace v = elim (Bool-cases d.playing) [
    | inl on ↦ let (silent, rests) = start_play_nothing on in JointTrace-eq done silent refl rests
    | inr off ↦
        let (calls, ends) = start_play_lem v off in
        JointTrace-eq
          (start_play-JointTrace (joint_of d) true _ [] off
            (AtMostOne-if_so (is_new_buffer play_thread) (is_null d.playout_buffer) _ refl) tt)
          calls refl ends
  ]

  start_rec_lem :
      Inv d
      → d.recording ≡ false
      → (if_so (is_null d.recording_buffer) (new_buffer rec_thread) ++ (rec_end true ∷ [])
          ≡ (start_recording heap d).2)
        × (rec_started true (joint_of d) ≡ joint_of (start_recording heap d).1)
  unfolding start_recording
  start_rec_lem v off = ground arith

  pub starts_recording-JointTrace :
      Inv d
      → d.recording ≡ false
      → JointTrace (start_recording heap d).2 (joint_of d) (joint_of (start_recording heap d).1)
  starts_recording-JointTrace v off =
      let (calls, ends) = start_rec_lem v off in
      JointTrace-eq
        (start_rec-JointTrace (joint_of d) true _ [] off
          (AtMostOne-if_so (is_new_buffer rec_thread) (is_null d.recording_buffer) _ refl) tt)
        calls refl ends

module _ (d : RawAudioDevice) where
  stop_play_lem :
      (stop_calls d.thread_play
          (stop_thread play_thread)
          (if_so (not (is_null d.playout_buffer)) (delete_buffer play_thread))
          []
        ≡ (stop_playout d).2)
      × (play_stopped (joint_of d) ≡ joint_of (stop_playout d).1)
  unfolding stop_playout
  stop_play_lem = ground arith

  pub stops_playout-JointTrace :
      JointTrace (stop_playout d).2 (joint_of d) (joint_of (stop_playout d).1)
  stops_playout-JointTrace =
      JointTrace-eq
        (stop_play-JointTrace (joint_of d) d.thread_play _ []
          (AtMostOne-if_so (is_delete_buffer play_thread) (not (is_null d.playout_buffer)) _ refl)
          tt)
        stop_play_lem.0 refl stop_play_lem.1

  stop_rec_lem :
      (stop_calls d.thread_rec
          (stop_thread rec_thread)
          (if_so (not (is_null d.recording_buffer)) (delete_buffer rec_thread))
          []
        ≡ (stop_recording d).2)
      × (rec_stopped (joint_of d) ≡ joint_of (stop_recording d).1)
  unfolding stop_recording
  stop_rec_lem = ground arith

  pub stops_recording-JointTrace :
      JointTrace (stop_recording d).2 (joint_of d) (joint_of (stop_recording d).1)
  stops_recording-JointTrace =
      JointTrace-eq
        (stop_rec-JointTrace (joint_of d) d.thread_rec false _ []
          (AtMostOne-if_so (is_delete_buffer rec_thread) (not (is_null d.recording_buffer)) _ refl)
          tt)
        stop_rec_lem.0 refl stop_rec_lem.1

  init_play_lem :
      (lock
          ∷ (format_if
                (not d.playing && d.audio_buffer)
                (set_playout_sample_rate playout_fixed_sample_rate)
                (set_playout_channels playout_num_channels)
              ++ (unlock ∷ []))
        ≡ (init_playout d).2)
      × (joint_of d ≡ joint_of (init_playout d).1)
  unfolding init_playout
  init_play_lem = ground arith

  pub inits_playout-JointTrace :
      JointTrace (init_playout d).2 (joint_of d) (joint_of (init_playout d).1)
  inits_playout-JointTrace =
      JointTrace-eq
        (others-JointTrace (joint_of d) _
          (format_if-AllSettings (not d.playing && d.audio_buffer) _ _ refl refl))
        init_play_lem.0 refl init_play_lem.1

  init_rec_lem :
      (lock
          ∷ (format_if
                (not d.recording && d.audio_buffer)
                (set_recording_sample_rate recording_fixed_sample_rate)
                (set_recording_channels recording_num_channels)
              ++ (unlock ∷ []))
        ≡ (init_recording d).2)
      × (joint_of d ≡ joint_of (init_recording d).1)
  unfolding init_recording
  init_rec_lem = ground arith

  pub inits_recording-JointTrace :
      JointTrace (init_recording d).2 (joint_of d) (joint_of (init_recording d).1)
  inits_recording-JointTrace =
      JointTrace-eq
        (others-JointTrace (joint_of d) _
          (format_if-AllSettings (not d.recording && d.audio_buffer) _ _ refl refl))
        init_rec_lem.0 refl init_rec_lem.1

  pub attaches-JointTrace :
      JointTrace (attach_audio_buffer d).2 (joint_of d) (joint_of (attach_audio_buffer d).1)
  unfolding attach_audio_buffer
  attaches-JointTrace =
      others-JointTrace (joint_of d)
        (set_recording_sample_rate 0
          ∷ set_playout_sample_rate 0
          ∷ set_recording_channels 0
          ∷ set_playout_channels 0
          ∷ [])
        (refl, (refl, (refl, (refl, tt))))
