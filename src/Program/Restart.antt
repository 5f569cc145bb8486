-- ===== src/Program/Restart.antt =====
-- `restartAudioInputDevice` in the middle of a file.
use mqtgcalls.Prelude.{
  ◌≤◌, ◌+◌, ◌*◌, Bytes, true, false, List, [], ◌∷◌, ◌≡◌, arith, length, is_empty,
}
use mqtgcalls.Host.Files.{FileApi, Heap, ReadsInOrder}
use mqtgcalls.Host.Playback.{captured, endings}
use mqtgcalls.FileAudioDevice.Defs.{FileAudioDevice, recording_buffer_size}
use mqtgcalls.FileAudioDevice.Control.{stop_recording, init_recording, start_recording}
use mqtgcalls.FileAudioDevice.Threads.{Tick, rec_thread_func}
use mqtgcalls.FileAudioDevice.Rounds.{IsReady}
use mqtgcalls.FileAudioDevice.Playback.{IsPaddedTo, PlaysOnce, rec_thread_func-Plays_file}
use mqtgcalls.AudioModule.{restart_audio_input_device}
use mqtgcalls.AudioModule.Devices.{file_module}
use mqtgcalls.NativeInstance.Group.{restarts_audio_input_device}
use mqtgcalls.Program.{Opening, perform}

module _ {File : Type 0} (api : FileApi File) (heap : Heap) (files : ReadsInOrder api) where
  abbrev pub restarted : Opening File → FileAudioDevice File → FileAudioDevice File
  restarted o d =
      (perform (file_module api heap o.output o.input o.answers) restarts_audio_input_device d).0

  restarted-IsReady :
      (o : Opening File) (d : FileAudioDevice File)
      → d.recording ≡ true
      → is_empty o.answers.input_filename ≡ false
      → api.is_open o.input ≡ true
      → IsReady api files (restarted o d) (heap.alloc recording_buffer_size)
  unfolding restart_audio_input_device stop_recording init_recording start_recording
  restarted-IsReady o d on named opened = ground (arith, heap.length-alloc recording_buffer_size)

  restarted_file :
      (o : Opening File) (d : FileAudioDevice File)
      → d.recording ≡ true
      → is_empty o.answers.input_filename ≡ false
      → api.is_open o.input ≡ true
      → ((restarted o d).input_file ≡ o.input)
        × ((restarted o d).last_call_record_millis ≡ d.last_call_record_millis)
  unfolding restart_audio_input_device stop_recording init_recording start_recording
  restarted_file o d on named opened = ground arith

  -- restartAudioInputDevice on a file device that records, in whatever state of its file, plays
  -- the file that is then opened from its start. The file is named, opens and is read in order;
  -- every round of the recording thread is due after the last one before the restart, not paused,
  -- not endless, with a callback that is set and one name for the file; and there are rounds for
  -- the bytes of the file and one more block. Then the recording thread returns, the audio that
  -- the transport reads is exactly the bytes of the file, followed by less than one block of
  -- padding up to a whole number of blocks, and the end is announced once, by that name.
  pub restart_plays_file :
      (o : Opening File) (d : FileAudioDevice File) (name : Bytes) (ts : List Tick)
      → d.recording ≡ true
      → is_empty o.answers.input_filename ≡ false
      → api.is_open o.input ≡ true
      → PlaysOnce name d.last_call_record_millis ts
      → length (files.rest o.input) + recording_buffer_size ≤ recording_buffer_size * length ts
      → let (more, after, events) = rec_thread_func api ts (restarted o d) in
        (more ≡ false)
        × IsPaddedTo (files.rest o.input) (captured events)
        × (endings events ≡ name ∷ [])
  restart_plays_file o d name ts on named opened once enough =
      let (input, clock) = restarted_file o d on named opened in
      let (over, padded, ends) =
        rec_thread_func-Plays_file api files name ts (restarted o d) _
          (restarted-IsReady o d on named opened) (rw clock once) (rw input enough) in
      (over, rw input at padded, ends)
