-- ===== src/FileAudioDevice/Lifecycle.antt =====
-- Starting, stopping and starting again.
use mqtgcalls.Prelude.{
  Bytes, Bool, true, false, [], ◌∷◌, ◌≡◌, ◌⊎◌, none, some, pos, minus_one, arith,
}
use mqtgcalls.Host.Files.{FileApi, Heap, ClosesFiles}
use mqtgcalls.FileAudioDevice.Defs.{
  FileAudioDevice, FileAudioDeviceDescriptor, playout_buffer_size, recording_buffer_size,
}
use mqtgcalls.FileAudioDevice.Control.{
  init_recording, start_playout, stop_playout, start_recording, stop_recording,
}

module _ {File : Type 0} (api : FileApi File) (heap : Heap) where
  -- A side of the device that holds nothing.
  pub record PlayoutStopped (d : FileAudioDevice File) : Type 0 where
    pub idle : d.playing ≡ false
    pub no_thread : d.thread_play ≡ false
    pub no_buffer : d.playout_buffer ≡ none
    pub no_frames : d.playout_frames_left ≡ 0

  pub record RecordingStopped (d : FileAudioDevice File) : Type 0 where
    pub idle : d.recording ≡ false
    pub no_thread : d.thread_rec ≡ false
    pub no_buffer : d.recording_buffer ≡ none
    pub no_frames : d.recording_frames_left ≡ 0

  pub stop_playout-stops :
      ClosesFiles api
      → (d : FileAudioDevice File)
      → ((stop_playout api d).0 ≡ pos 0)
        × PlayoutStopped (stop_playout api d).1
        × (api.is_open (stop_playout api d).1.output_file ≡ false)
  unfolding stop_playout
  stop_playout-stops closes d = ground (arith, closes.close_lem d.output_file)

  pub stop_recording-stops :
      ClosesFiles api
      → (d : FileAudioDevice File)
      → ((stop_recording api d).0 ≡ pos 0)
        × RecordingStopped (stop_recording api d).1
        × (api.is_open (stop_recording api d).1.input_file ≡ false)
  unfolding stop_recording
  stop_recording-stops closes d = ground (arith, closes.close_lem d.input_file)

  -- A start of a stopped side fails exactly when a file is named and does not open.
  abbrev pub opens : Bytes → File → Bool
  opens [] opened = true
  opens (c ∷ name) opened = api.is_open opened

  -- A start of stopped playout of a file device ends in one of two ways. If no output file is
  -- named or the named one opens, the status is 0 and the device plays, with a thread and a new
  -- buffer of 1920 bytes. Otherwise the status is -1 and playout is stopped again, with no thread
  -- and no buffer.
  pub start_playout_result :
      (opened : File) (answers : FileAudioDeviceDescriptor) (d : FileAudioDevice File)
      → PlayoutStopped d
      → let r = start_playout api heap opened answers d in
        ((opens answers.output_filename opened ≡ true)
          × (r.0 ≡ pos 0)
          × (r.1.playing ≡ true)
          × (r.1.thread_play ≡ true)
          × (r.1.playout_buffer ≡ some (heap.alloc playout_buffer_size)))
        ⊎ ((opens answers.output_filename opened ≡ false) × (r.0 ≡ minus_one) × PlayoutStopped r.1)
  unfolding start_playout
  start_playout_result opened answers d s = ground arith

  -- A start of stopped and initialized recording of a file device ends in one of two ways. If no
  -- input file is named or the named one opens, the status is 0 and the device records, with a
  -- thread and a new buffer of 1920 bytes. Otherwise the status is -1 and recording is stopped
  -- again, with no thread and no buffer.
  pub start_recording_result :
      (opened : File) (answers : FileAudioDeviceDescriptor) (d : FileAudioDevice File)
      → RecordingStopped d
      → d.recording_frames_in_10ms ≡ 480
      → let r = start_recording api heap opened answers d in
        ((opens answers.input_filename opened ≡ true)
          × (r.0 ≡ pos 0)
          × (r.1.recording ≡ true)
          × (r.1.thread_rec ≡ true)
          × (r.1.recording_buffer ≡ some (heap.alloc recording_buffer_size)))
        ⊎ ((opens answers.input_filename opened ≡ false) × (r.0 ≡ minus_one) × RecordingStopped r.1)
  unfolding start_recording
  start_recording_result opened answers d s ready = ground arith

  -- A second start of playout does nothing.
  pub start_playout_twice :
      (opened : File) (answers : FileAudioDeviceDescriptor) (d : FileAudioDevice File)
      → d.playing ≡ true
      → start_playout api heap opened answers d ≡ (pos 0, d, [])
  unfolding start_playout
  start_playout_twice opened answers d on = ground arith

  -- Parameters are set only while a side is stopped, and a refusal changes nothing.
  pub init_recording_result :
      (d : FileAudioDevice File)
      → ((d.recording ≡ true) × ((init_recording d).0 ≡ minus_one) × ((init_recording d).1 ≡ d))
        ⊎ ((d.recording ≡ false)
            × ((init_recording d).0 ≡ pos 0)
            × ((init_recording d).1 ≡ record d { recording_frames_in_10ms = 480 }))
  unfolding init_recording
  init_recording_result d = ground arith
