-- ===== src/FileAudioDevice/Calls.antt =====
-- Every call that changes a device, as data: those of the audio module and the rounds of the two
-- worker threads. Between two of them the device is not touched.
use mqtgcalls.Prelude.{ℕ, List, [], ◌∷◌, Option}
use mqtgcalls.Prelude.Monad.{pure, ◌>>◌}
use mqtgcalls.Host.{Event}
use mqtgcalls.Host.Transport.{checked}
use mqtgcalls.Host.Files.{FileApi, Heap}
use mqtgcalls.FileAudioDevice.Defs.{FileAudioDevice, FileAudioDeviceDescriptor, DeviceM}
use mqtgcalls.FileAudioDevice.Control.{
  set_playout_device, set_recording_device, init_playout, init_recording, attach_audio_buffer,
  start_playout, stop_playout, start_recording, stop_recording,
}
use mqtgcalls.FileAudioDevice.Threads.{Tick, play_thread_process, rec_thread_process}

-- A start comes with the file that opening gives and the answers of the descriptor.
pub data Call (File : Type 0) : Type 0 where
  selects_playout selects_recording : ℕ → Call File
  attaches inits_playout inits_recording : Call File
  starts_playout starts_recording : File → FileAudioDeviceDescriptor → Call File
  stops_playout stops_recording : Call File
  plays records : Tick → Call File

-- A call for its effect.
abbrev ignore : {File A : Type 0} → DeviceM File A → DeviceM File (Unit {0})
ignore m d = (tt, (m d).1, (m d).2)

module _ {File : Type 0} (api : FileApi File) (heap : Heap) where
  unfoldable pub step : Call File → DeviceM File (Unit {0})
  step (selects_playout index) = ignore (set_playout_device index)
  step (selects_recording index) = ignore (set_recording_device index)
  step attaches = attach_audio_buffer
  step inits_playout = ignore init_playout
  step inits_recording = ignore init_recording
  step (starts_playout opened answers) = ignore (start_playout api heap opened answers)
  step (starts_recording opened answers) = ignore (start_recording api heap opened answers)
  step stops_playout = ignore (stop_playout api)
  step stops_recording = ignore (stop_recording api)
  step (plays t) = ignore (play_thread_process api t)
  step (records t) = ignore (rec_thread_process api t)

  -- The same, with a call to the transport through a null `_ptrAudioBuffer` as a fault, `none`: the
  -- pointer, once set, stays set.
  unfoldable pub checked_step :
      Call File → FileAudioDevice File → Option (FileAudioDevice File × List Event)
  checked_step c d = let (done, d', es) = step c d in checked d'.audio_buffer es (d', es)

  unfoldable pub run : List (Call File) → DeviceM File (Unit {0})
  run [] = pure tt
  run (c ∷ cs) = do step c; run cs
