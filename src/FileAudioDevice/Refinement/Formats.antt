-- ===== src/FileAudioDevice/Refinement/Formats.antt =====
-- The calls of a file device that tell the transport a format (src/FileAudioDevice.cpp): they move
-- neither side of `Joint`.
use mqtgcalls.Prelude.{Bool, true, false, List, [], ◌∷◌, ◌++◌, ◌≡◌, refl, arith, not, ◌&&◌}
use mqtgcalls.Host.{
  Event, lock, unlock, set_playout_sample_rate, set_playout_channels, set_recording_sample_rate,
  set_recording_channels,
}
use mqtgcalls.FileAudioDevice.Defs.{
  FileAudioDevice, playout_fixed_sample_rate, playout_num_channels, recording_fixed_sample_rate,
  recording_num_channels,
}
use mqtgcalls.FileAudioDevice.Control.{init_playout, init_recording, attach_audio_buffer}
use mqtgcalls.FileAudioDevice.Joint.Trace.{is_setting, JointTrace, JointTrace-eq}
use mqtgcalls.FileAudioDevice.Joint.Starts.{AllSettings, others-JointTrace}
use mqtgcalls.FileAudioDevice.Refinement.{joint_of}

-- A format goes to the transport if it is there and the side does not run.
abbrev pub format_if : Bool → Event → Event → List Event
format_if true rate channels = rate ∷ channels ∷ []
format_if false rate channels = []

pub format_if-AllSettings :
    (b : Bool) (rate channels : Event)
    → is_setting rate ≡ true
    → is_setting channels ≡ true
    → AllSettings (format_if b rate channels)
format_if-AllSettings true rate channels r c = (r, (c, tt))
format_if-AllSettings false rate channels r c = tt

module _ {File : Type 0} (d : FileAudioDevice File) (gone : Bool) where
  init_play_calls :
      lock
        ∷ (format_if
              (not d.playing && d.audio_buffer)
              (set_playout_sample_rate playout_fixed_sample_rate)
              (set_playout_channels playout_num_channels)
            ++ (unlock ∷ []))
      ≡ (init_playout d).2
  unfolding init_playout
  init_play_calls = ground arith

  init_play_ends : joint_of gone d ≡ joint_of gone (init_playout d).1
  unfolding init_playout
  init_play_ends = ground arith

  pub inits_playout-JointTrace :
      JointTrace (init_playout d).2 (joint_of gone d) (joint_of gone (init_playout d).1)
  inits_playout-JointTrace =
      JointTrace-eq
        (others-JointTrace (joint_of gone d) _
          (format_if-AllSettings (not d.playing && d.audio_buffer) _ _ refl refl))
        init_play_calls refl init_play_ends

  init_rec_calls :
      lock
        ∷ (format_if
              (not d.recording && d.audio_buffer)
              (set_recording_sample_rate recording_fixed_sample_rate)
              (set_recording_channels recording_num_channels)
            ++ (unlock ∷ []))
      ≡ (init_recording d).2
  unfolding init_recording
  init_rec_calls = ground arith

  init_rec_ends : joint_of gone d ≡ joint_of gone (init_recording d).1
  unfolding init_recording
  init_rec_ends = ground arith

  pub inits_recording-JointTrace :
      JointTrace (init_recording d).2 (joint_of gone d) (joint_of gone (init_recording d).1)
  inits_recording-JointTrace =
      JointTrace-eq
        (others-JointTrace (joint_of gone d) _
          (format_if-AllSettings (not d.recording && d.audio_buffer) _ _ refl refl))
        init_rec_calls refl init_rec_ends

  pub attaches-JointTrace :
      JointTrace
        (attach_audio_buffer d).2
        (joint_of gone d)
        (joint_of gone (attach_audio_buffer d).1)
  unfolding attach_audio_buffer
  attaches-JointTrace =
      others-JointTrace (joint_of gone d)
        (set_recording_sample_rate 0
          ∷ set_playout_sample_rate 0
          ∷ set_recording_channels 0
          ∷ set_playout_channels 0
          ∷ [])
        (refl, (refl, (refl, (refl, tt))))
