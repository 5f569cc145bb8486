-- ===== src/FileAudioDevice/Invariant.antt =====
-- What is to hold of a device between two calls (src/FileAudioDevice.cpp).
use mathlib.Core.Option
use mqtgcalls.Prelude.{
  ℤ, ℕ, ◌≤◌, Bytes, Bool, true, false, List, [], ◌∷◌, ◌≡◌, Option, none, some, arith, length,
  is_empty, overlay, length-overlay,
}
use mqtgcalls.Host.Files.{FileApi, Heap}
use mqtgcalls.FileAudioDevice.Defs.{
  FileAudioDevice, FileAudioDeviceDescriptor, playout_buffer_size, recording_buffer_size,
  new_device,
}
use mqtgcalls.FileAudioDevice.Control.{
  set_playout_device, set_recording_device, init_playout, init_recording, attach_audio_buffer,
  start_playout, stop_playout, start_recording, stop_recording,
}
use mqtgcalls.FileAudioDevice.Threads.{
  Tick, play_thread_process, rec_thread_process, record_block, end_round,
}
use mqtgcalls.FileAudioDevice.Calls.{
  Call, starts_playout, starts_recording, plays, records, step, run,
}

-- A buffer that a running thread uses is there, with `n` bytes; a stopped thread has none.
abbrev pub HasBuffer : Bool → Option Bytes → ℕ → Type 0
HasBuffer true none n = ⊥
HasBuffer true (some b) n = length b ≡ n
HasBuffer false none n = Unit
HasBuffer false (some b) n = ⊥

-- A side that runs has been initialized, to 480 frames in 10 ms.
abbrev pub HasFrames : Bool → ℕ → Type 0
HasFrames true n = n ≡ 480
HasFrames false n = Unit

pub HasBuffer-overlay :
    (on : Bool) (bytes : Bytes) (buffer : Option Bytes) (n : ℕ)
    → length bytes ≤ n
    → HasBuffer on buffer n
    → HasBuffer on (Option.map (overlay bytes) buffer) n
HasBuffer-overlay true bytes none n fits h = h
HasBuffer-overlay true bytes (some b) n fits h = omega (arith, length-overlay bytes b)
HasBuffer-overlay false bytes none n fits h = h
HasBuffer-overlay false bytes (some b) n fits h = h

pub record Inv {File : Type 0} (d : FileAudioDevice File) : Type 0 where
  pub play_buffer : HasBuffer d.playing d.playout_buffer playout_buffer_size
  pub play_thread : d.thread_play ≡ d.playing
  pub rec_buffer : HasBuffer d.recording d.recording_buffer recording_buffer_size
  pub rec_thread : d.thread_rec ≡ d.recording
  pub rec_initialized : HasFrames d.recording d.recording_frames_in_10ms

-- The protocol of the audio module: it starts recording only when that is initialized and does not
-- run; and 10 ms of playout fit 1920 bytes.
abbrev pub Permitted : {File : Type 0} → FileAudioDevice File → Call File → Type 0
Permitted d (starts_recording opened answers) =
    (d.recording ≡ false) × (d.recording_frames_in_10ms ≡ 480)
Permitted d (plays t) = length t.samples ≤ playout_buffer_size
Permitted d _ = Unit

module _ {File : Type 0} (api : FileApi File) (heap : Heap) where
  abbrev after : Call File → FileAudioDevice File → FileAudioDevice File
  after c d = (step api heap c d).1

  pub new_device-Inv : (p r : ℤ) → Inv (new_device api p r)
  unfolding new_device
  new_device-Inv p r = ground arith

  start_recording-Inv :
      (opened : File) (answers : FileAudioDeviceDescriptor) (d : FileAudioDevice File)
      → Inv d
      → d.recording ≡ false
      → d.recording_frames_in_10ms ≡ 480
      → Inv (start_recording api heap opened answers d).1
  unfolding start_recording
  start_recording-Inv opened answers d v off ready =
      ground (arith, heap.length-alloc recording_buffer_size)

  start_playout-Inv :
      (opened : File) (answers : FileAudioDeviceDescriptor) (d : FileAudioDevice File)
      → Inv d
      → Inv (start_playout api heap opened answers d).1
  unfolding start_playout
  start_playout-Inv opened answers d v = ground (arith, heap.length-alloc playout_buffer_size)

  -- A second start of recording, on a file device that keeps its invariant and records, whose
  -- named input file does not open: the recording thread is still there, its buffer is gone, and
  -- the invariant is broken.
  pub start_recording-breaks-Inv :
      (opened : File) (answers : FileAudioDeviceDescriptor) (d : FileAudioDevice File)
      → Inv d
      → d.recording ≡ true
      → is_empty answers.input_filename ≡ false
      → api.is_open opened ≡ false
      → ((start_recording api heap opened answers d).1.thread_rec ≡ true)
        × ((start_recording api heap opened answers d).1.recording_buffer ≡ none)
        × ¬ Inv (start_recording api heap opened answers d).1
  unfolding start_recording
  start_recording-breaks-Inv opened answers d v on named shut = ground arith

  play_thread_process-Inv :
      (t : Tick) (d : FileAudioDevice File)
      → length t.samples ≤ playout_buffer_size
      → Inv d
      → Inv (play_thread_process api t d).1
  unfolding play_thread_process
  play_thread_process-Inv t d fits v =
      ground (arith, HasBuffer-overlay d.playing t.samples d.playout_buffer playout_buffer_size)

  -- Each call is permitted in the state that the calls before it leave.
  abbrev pub AllPermitted : FileAudioDevice File → List (Call File) → Type 0
  AllPermitted d [] = Unit
  AllPermitted d (c ∷ cs) = Permitted d c × AllPermitted (after c d) cs

  -- `Read` returns at most the bytes that it was asked for.
  module _ (read_fits : (f : File) (n : ℕ) → length (api.read f n).0 ≤ n) where
    record_block-Inv : (t : Tick) (d : FileAudioDevice File) → Inv d → Inv (record_block api t d).1
    unfolding record_block
    record_block-Inv t d v = ground (
      arith,
      read_fits d.input_file recording_buffer_size,
      HasBuffer-overlay d.recording (api.read d.input_file recording_buffer_size).0
          d.recording_buffer recording_buffer_size,
    )

    rec_thread_process-Inv :
        (t : Tick) (d : FileAudioDevice File) → Inv d → Inv (rec_thread_process api t d).1
    unfolding rec_thread_process end_round
    rec_thread_process-Inv t d v = ground (arith, record_block-Inv t d)

    pub step-Inv :
        (c : Call File) (d : FileAudioDevice File) → Permitted d c → Inv d → Inv (after c d)
    unfolding step init_playout init_recording attach_audio_buffer stop_playout stop_recording
        set_playout_device set_recording_device
    step-Inv (starts_playout opened answers) d p v = start_playout-Inv opened answers d v
    step-Inv (starts_recording opened answers) d p v =
        start_recording-Inv opened answers d v p.0 p.1
    step-Inv (plays t) d p v = play_thread_process-Inv t d p v
    step-Inv (records t) d p v = rec_thread_process-Inv t d v
    step-Inv _ d p v = ground arith

    -- Every sequence of calls of a file device keeps its invariant (a side that runs has its
    -- thread, its buffer of 1920 bytes and, for recording, 480 frames for 10 ms; a stopped side
    -- has no thread and no buffer), if a read returns no more bytes than were asked for,
    -- recording is started only where it does not run and is initialized, and the transport gives
    -- at most 1920 bytes of playout.
    pub run-Inv :
        (cs : List (Call File)) (d : FileAudioDevice File)
        → AllPermitted d cs
        → Inv d
        → Inv (run api heap cs d).1
    unfolding run
    run-Inv [] d p v = v
    run-Inv (c ∷ cs) d p v = run-Inv cs (after c d) p.1 (step-Inv c d p.0 v)
