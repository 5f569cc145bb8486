-- ===== src/Program/Modules.antt =====
-- What `performWithAudioDeviceModule` does to a device, with the invariant of the device.
use mqtgcalls.Prelude.{ℕ, ◌≤◌, Bool, true, false, ◌≡◌, refl, ◌⊎◌, arith, length, not}
use mqtgcalls.Prelude.Monad.{M, when}
use mqtgcalls.Host.Files.{FileApi, Heap}
use mqtgcalls.FileAudioDevice.Defs.{FileAudioDevice}
use mqtgcalls.FileAudioDevice.Control as FileControl
use mqtgcalls.FileAudioDevice.Calls as FileCalls
use mqtgcalls.FileAudioDevice.Invariant as FileInvariant
use mqtgcalls.RawAudioDevice.Defs.{RawAudioDevice}
use mqtgcalls.RawAudioDevice.Control as RawControl
use mqtgcalls.RawAudioDevice.Invariant as RawInvariant
use mqtgcalls.AudioModule.{
  stop_audio_device_module, start_audio_device_module, restart_audio_input_device,
  restart_audio_output_device,
}
use mqtgcalls.AudioModule.Devices.{file_module, raw_module}
use mqtgcalls.NativeInstance.Group.{
  GroupCall, stops_audio_device_module, starts_audio_device_module, restarts_audio_input_device,
  restarts_audio_output_device, sets_is_muted,
}
use mqtgcalls.Program.{Opening, perform}

-- A side that is started by `startAudioDeviceModule` has been initialized.
abbrev pub ReadyFor : GroupCall → (recording : Bool) → (frames : ℕ) → Type 0
ReadyFor starts_audio_device_module recording frames = (recording ≡ true) ⊎ (frames ≡ 480)
ReadyFor _ recording frames = Unit

when-keeps :
    {S E : Type 0} (P : S → Type 0) (b : Bool) (m : M S E (Unit {0})) (s : S)
    → P s
    → (b ≡ true → P (m s).1)
    → P (when b m s).1
when-keeps P true m s p then_p = then_p refl
when-keeps P false m s p then_p = p

module _ {File : Type 0} (api : FileApi File) (heap : Heap)
    (read_fits : (f : File) (n : ℕ) → length (api.read f n).0 ≤ n) where
  abbrev keeps :
      (c : FileCalls.Call File) (d : FileAudioDevice File)
      → FileInvariant.Permitted d c
      → FileInvariant.Inv d
      → FileInvariant.Inv (FileCalls.step api heap c d).1
  keeps = FileInvariant.step-Inv api heap read_fits

  file_stopped-Inv :
      (o : Opening File) (d : FileAudioDevice File)
      → FileInvariant.Inv d
      → FileInvariant.Inv
          (perform (file_module api heap o.output o.input o.answers) stops_audio_device_module d).0
  unfolding stop_audio_device_module FileCalls.step
  file_stopped-Inv o d v =
      keeps FileCalls.stops_playout (FileControl.stop_recording api d).1 tt
        (keeps FileCalls.stops_recording d tt v)

  file_started-Inv :
      (o : Opening File) (d : FileAudioDevice File)
      → (d.recording ≡ true) ⊎ (d.recording_frames_in_10ms ≡ 480)
      → FileInvariant.Inv d
      → FileInvariant.Inv
          (perform (file_module api heap o.output o.input o.answers) starts_audio_device_module d).0
  unfolding start_audio_device_module FileCalls.step
  file_started-Inv o d ready v =
      let rec_call = FileCalls.starts_recording o.input o.answers in
      let play_call = FileCalls.starts_playout o.output o.answers in
      let d' = (when (not d.recording) (FileCalls.step api heap rec_call) d).1 in
      let v' : FileInvariant.Inv d' =
        when-keeps FileInvariant.Inv (not d.recording) (FileCalls.step api heap rec_call) d v
          (λ off. keeps rec_call d (ground arith) v) in
      when-keeps FileInvariant.Inv (not d'.playing) (FileCalls.step api heap play_call) d' v'
        (λ off. keeps play_call d' tt v')

  file_restarted_input-Inv :
      (o : Opening File) (d : FileAudioDevice File)
      → FileInvariant.Inv d
      → FileInvariant.Inv
          (perform
            (file_module api heap o.output o.input o.answers)
            restarts_audio_input_device
            d).0
  unfolding restart_audio_input_device FileControl.stop_recording FileControl.init_recording
      FileControl.start_recording
  file_restarted_input-Inv o d v = ground (arith, heap.length-alloc 1920)

  file_restarted_output-Inv :
      (o : Opening File) (d : FileAudioDevice File)
      → FileInvariant.Inv d
      → FileInvariant.Inv
          (perform
            (file_module api heap o.output o.input o.answers)
            restarts_audio_output_device
            d).0
  unfolding restart_audio_output_device FileControl.stop_playout FileControl.init_playout
      FileControl.start_playout
  file_restarted_output-Inv o d v = ground (arith, heap.length-alloc 1920)

  pub file_perform-Inv :
      (o : Opening File) (c : GroupCall) (d : FileAudioDevice File)
      → ReadyFor c d.recording d.recording_frames_in_10ms
      → FileInvariant.Inv d
      → FileInvariant.Inv (perform (file_module api heap o.output o.input o.answers) c d).0
  file_perform-Inv o stops_audio_device_module d ready v = file_stopped-Inv o d v
  file_perform-Inv o starts_audio_device_module d ready v = file_started-Inv o d ready v
  file_perform-Inv o restarts_audio_input_device d ready v = file_restarted_input-Inv o d v
  file_perform-Inv o restarts_audio_output_device d ready v = file_restarted_output-Inv o d v
  file_perform-Inv o (sets_is_muted b) d ready v = v
  file_perform-Inv o _ d ready v = v

module _ (heap : Heap) where
  pub raw_perform-Inv :
      (c : GroupCall) (d : RawAudioDevice)
      → ReadyFor c d.recording d.recording_frames_in_10ms
      → RawInvariant.Inv d
      → RawInvariant.Inv (perform (raw_module heap) c d).0
  unfolding stop_audio_device_module start_audio_device_module restart_audio_input_device
      restart_audio_output_device RawControl.stop_recording RawControl.init_recording
      RawControl.start_recording RawControl.stop_playout RawControl.init_playout
      RawControl.start_playout
  raw_perform-Inv stops_audio_device_module d ready v = ground arith
  raw_perform-Inv starts_audio_device_module d ready v = ground (arith, heap.length-alloc 1920)
  raw_perform-Inv restarts_audio_input_device d ready v = ground (arith, heap.length-alloc 1920)
  raw_perform-Inv restarts_audio_output_device d ready v = ground (arith, heap.length-alloc 1920)
  raw_perform-Inv (sets_is_muted b) d ready v = v
  raw_perform-Inv _ d ready v = v
