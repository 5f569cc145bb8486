-- ===== src/Program/Attached.antt =====
-- `_ptrAudioBuffer`, once set, stays set (src/FileAudioDevice.cpp, src/RawAudioDevice.cpp).
use mqtgcalls.Prelude.{true, ◌≡◌, arith}
use mqtgcalls.Host.Files.{FileApi, Heap}
use mqtgcalls.FileAudioDevice.Defs.{FileAudioDevice}
use mqtgcalls.FileAudioDevice.Control as FileControl
use mqtgcalls.FileAudioDevice.Threads as FileThreads
use mqtgcalls.FileAudioDevice.Calls as FileCalls
use mqtgcalls.RawAudioDevice.Defs.{RawAudioDevice}
use mqtgcalls.RawAudioDevice.Control as RawControl
use mqtgcalls.RawAudioDevice.Threads as RawThreads
use mqtgcalls.RawAudioDevice.Calls as RawCalls
use mqtgcalls.AudioModule.{
  stop_audio_device_module, start_audio_device_module, restart_audio_input_device,
  restart_audio_output_device,
}
use mqtgcalls.AudioModule.Devices.{file_module, raw_module}
use mqtgcalls.NativeInstance.Group.{
  GroupCall, stops_audio_device_module, starts_audio_device_module, restarts_audio_input_device,
  restarts_audio_output_device,
}
use mqtgcalls.Program.{Opening, perform}

module _ {File : Type 0} (api : FileApi File) (heap : Heap) where
  pub file_step-attached :
      (c : FileCalls.Call File) (d : FileAudioDevice File)
      → d.audio_buffer ≡ true
      → (FileCalls.step api heap c d).1.audio_buffer ≡ true
  unfolding FileCalls.step FileControl.set_playout_device FileControl.set_recording_device
      FileControl.init_playout FileControl.init_recording FileControl.attach_audio_buffer
      FileControl.start_playout FileControl.stop_playout FileControl.start_recording
      FileControl.stop_recording FileThreads.play_thread_process FileThreads.rec_thread_process
      FileThreads.record_block FileThreads.end_round
  file_step-attached (FileCalls.selects_playout n) d h = ground arith
  file_step-attached _ d h = ground arith

  pub file_perform-attached :
      (o : Opening File) (c : GroupCall) (d : FileAudioDevice File)
      → d.audio_buffer ≡ true
      → (perform (file_module api heap o.output o.input o.answers) c d).0.audio_buffer ≡ true
  unfolding stop_audio_device_module start_audio_device_module restart_audio_input_device
      restart_audio_output_device FileControl.stop_recording FileControl.init_recording
      FileControl.start_recording FileControl.stop_playout FileControl.init_playout
      FileControl.start_playout
  file_perform-attached o stops_audio_device_module d h = ground arith
  file_perform-attached o starts_audio_device_module d h = ground arith
  file_perform-attached o restarts_audio_input_device d h = ground arith
  file_perform-attached o restarts_audio_output_device d h = ground arith
  file_perform-attached o _ d h = h

module _ (heap : Heap) where
  pub raw_step-attached :
      (c : RawCalls.Call) (d : RawAudioDevice)
      → d.audio_buffer ≡ true
      → (RawCalls.step heap c d).1.audio_buffer ≡ true
  unfolding RawCalls.step RawControl.set_playout_device RawControl.set_recording_device
      RawControl.init_playout RawControl.init_recording RawControl.attach_audio_buffer
      RawControl.start_playout RawControl.stop_playout RawControl.start_recording
      RawControl.stop_recording RawThreads.play_thread_process RawThreads.rec_thread_process
  raw_step-attached (RawCalls.selects_playout n) d h = ground arith
  raw_step-attached _ d h = ground arith

  pub raw_perform-attached :
      (c : GroupCall) (d : RawAudioDevice)
      → d.audio_buffer ≡ true
      → (perform (raw_module heap) c d).0.audio_buffer ≡ true
  unfolding stop_audio_device_module start_audio_device_module restart_audio_input_device
      restart_audio_output_device RawControl.stop_recording RawControl.init_recording
      RawControl.start_recording RawControl.stop_playout RawControl.init_playout
      RawControl.start_playout
  raw_perform-attached stops_audio_device_module d h = ground arith
  raw_perform-attached starts_audio_device_module d h = ground arith
  raw_perform-attached restarts_audio_input_device d h = ground arith
  raw_perform-attached restarts_audio_output_device d h = ground arith
  raw_perform-attached _ d h = h
