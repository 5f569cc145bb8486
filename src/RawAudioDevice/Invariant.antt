-- ===== src/RawAudioDevice/Invariant.antt =====
-- What is to hold of a device between two calls (src/RawAudioDevice.cpp).
use mqtgcalls.Prelude.{◌≤◌, false, List, [], ◌∷◌, ◌≡◌, arith, length, ℤ}
use mqtgcalls.Host.Files.{Heap}
use mqtgcalls.FileAudioDevice.Invariant.{HasBuffer, HasFrames, HasBuffer-overlay}
use mqtgcalls.RawAudioDevice.Defs.{
  RawAudioDevice, playout_buffer_size, recording_buffer_size, new_device,
}
use mqtgcalls.RawAudioDevice.Control.{
  set_playout_device, set_recording_device, init_playout, init_recording, attach_audio_buffer,
  start_playout, stop_playout, start_recording, stop_recording,
}
use mqtgcalls.RawAudioDevice.Threads.{play_thread_process, rec_thread_process}
use mqtgcalls.RawAudioDevice.Calls.{Call, selects_playout, starts_recording, plays, step, run}

pub record Inv (d : RawAudioDevice) : Type 0 where
  pub play_buffer : HasBuffer d.playing d.playout_buffer playout_buffer_size
  pub play_thread : d.thread_play ≡ d.playing
  pub rec_buffer : HasBuffer d.recording d.recording_buffer recording_buffer_size
  pub rec_thread : d.thread_rec ≡ d.recording
  pub rec_initialized : HasFrames d.recording d.recording_frames_in_10ms

-- The audio module starts recording only when that is initialized and does not run; and 10 ms of playout fit 1920
-- bytes.
abbrev pub Permitted : RawAudioDevice → Call → Type 0
Permitted d starts_recording = (d.recording ≡ false) × (d.recording_frames_in_10ms ≡ 480)
Permitted d (plays t) = length t.samples ≤ playout_buffer_size
Permitted d _ = Unit

pub new_device-Inv : (p r : ℤ) → Inv (new_device p r)
unfolding new_device
new_device-Inv p r = ground arith

module _ (heap : Heap) where
  abbrev after : Call → RawAudioDevice → RawAudioDevice
  after c d = (step heap c d).1

  -- Every permitted call keeps the invariant.
  pub step-Inv : (c : Call) (d : RawAudioDevice) → Permitted d c → Inv d → Inv (after c d)
  unfolding step set_playout_device set_recording_device init_playout init_recording
      attach_audio_buffer start_playout stop_playout start_recording stop_recording
      play_thread_process rec_thread_process
  step-Inv (selects_playout index) d p v = ground arith
  step-Inv (plays t) d p v =
      ground (arith, HasBuffer-overlay d.playing t.samples d.playout_buffer playout_buffer_size)
  step-Inv _ d p v =
      ground (arith, heap.length-alloc recording_buffer_size, heap.length-alloc playout_buffer_size)

  -- Each call is permitted in the state that the calls before it leave.
  abbrev pub AllPermitted : RawAudioDevice → List Call → Type 0
  AllPermitted d [] = Unit
  AllPermitted d (c ∷ cs) = Permitted d c × AllPermitted (after c d) cs

  -- Every sequence of calls of a raw device keeps its invariant (a side that runs has its thread,
  -- its buffer of 1920 bytes and, for recording, 480 frames for 10 ms; a stopped side has no
  -- thread and no buffer), if recording is started only where it is initialized and does not run,
  -- and the transport gives at most 1920 bytes of playout.
  pub raw_run-Inv :
      (cs : List Call) (d : RawAudioDevice) → AllPermitted d cs → Inv d → Inv (run heap cs d).1
  unfolding run
  raw_run-Inv [] d p v = v
  raw_run-Inv (c ∷ cs) d p v = raw_run-Inv cs (after c d) p.1 (step-Inv c d p.0 v)
