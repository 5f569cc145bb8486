-- ===== src/AudioModule/Devices.antt =====
-- The two devices as audio device modules.
use mqtgcalls.Prelude.{arith}
use mqtgcalls.Host.{Event}
use mqtgcalls.Host.Files.{FileApi, Heap}
use mqtgcalls.AudioModule.{AudioDeviceModule, KeepsStatus}
use mqtgcalls.FileAudioDevice.Defs.{FileAudioDevice, FileAudioDeviceDescriptor}
use mqtgcalls.FileAudioDevice.Control.{
  init_playout, init_recording, start_playout, stop_playout, start_recording, stop_recording,
}
use mqtgcalls.RawAudioDevice.Defs.{RawAudioDevice}
use mqtgcalls.RawAudioDevice.Control as Raw

-- A file device; `output` and `input` are what opening its files gives.
abbrev pub file_module :
    {File : Type 0}
    → FileApi File
    → Heap
    → (output input : File) → FileAudioDeviceDescriptor
    → AudioDeviceModule (FileAudioDevice File) Event
file_module api heap output input answers = record {
  recording = λ d. d.recording;
  playing = λ d. d.playing;
  init_recording = init_recording;
  init_playout = init_playout;
  start_recording = start_recording api heap input answers;
  start_playout = start_playout api heap output answers;
  stop_recording = stop_recording api;
  stop_playout = stop_playout api;
}

abbrev pub raw_module : Heap → AudioDeviceModule RawAudioDevice Event
raw_module heap = record {
  recording = λ d. d.recording;
  playing = λ d. d.playing;
  init_recording = Raw.init_recording;
  init_playout = Raw.init_playout;
  start_recording = Raw.start_recording heap;
  start_playout = Raw.start_playout heap;
  stop_recording = Raw.stop_recording;
  stop_playout = Raw.stop_playout;
}

-- A file device, whatever opening its files gives, fills the interface of an audio module: a stop
-- stops, a start ends with status 0 exactly if the side runs after it, a stopped side can be
-- initialized and stays stopped, and a call for one side leaves the status of the other.
pub file_module-KeepsStatus :
    {File : Type 0} (api : FileApi File) (heap : Heap) (output input : File)
    (answers : FileAudioDeviceDescriptor)
    → KeepsStatus (file_module api heap output input answers)
unfolding init_playout init_recording start_playout stop_playout start_recording stop_recording
file_module-KeepsStatus api heap output input answers = record {
  recording-stop = λ s. ground arith;
  recording-start = λ s. ground arith;
  init_recording_lem = λ s off. ground arith;
  playing-stop = λ s. ground arith;
  playing-start = λ s. ground arith;
  init_playout_lem = λ s off. ground arith;
  recording-stop_playout = λ s. ground arith;
  recording-init_playout = λ s. ground arith;
  recording-start_playout = λ s. ground arith;
  playing-stop_recording = λ s. ground arith;
  playing-init_recording = λ s. ground arith;
  playing-start_recording = λ s. ground arith;
}

-- A raw device fills the interface of an audio module: a stop stops, a start ends with status 0
-- exactly if the side runs after it, a stopped side can be initialized and stays stopped, and a
-- call for one side leaves the status of the other.
pub raw_module-KeepsStatus : (heap : Heap) → KeepsStatus (raw_module heap)
unfolding Raw.init_playout Raw.init_recording Raw.start_playout Raw.stop_playout Raw.start_recording
    Raw.stop_recording
raw_module-KeepsStatus heap = record {
  recording-stop = λ s. ground arith;
  recording-start = λ s. ground arith;
  init_recording_lem = λ s off. ground arith;
  playing-stop = λ s. ground arith;
  playing-start = λ s. ground arith;
  init_playout_lem = λ s off. ground arith;
  recording-stop_playout = λ s. ground arith;
  recording-init_playout = λ s. ground arith;
  recording-start_playout = λ s. ground arith;
  playing-stop_recording = λ s. ground arith;
  playing-init_recording = λ s. ground arith;
  playing-start_recording = λ s. ground arith;
}
