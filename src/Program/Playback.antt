-- ===== src/Program/Playback.antt =====
-- From `startGroupCall` with a file descriptor to the audio of the file at the transport.
use mqtgcalls.Prelude.{
  ◌≤◌, ◌+◌, ◌*◌, ◌++◌, Bytes, Bool, true, false, List, [], ◌∷◌, Option, none, some, ◌≡◌, refl, ap,
  ◌∙◌, arith, length, pos, ℤ, is_empty,
}
use mqtgcalls.Host.{Event}
use mqtgcalls.Host.Files.{FileApi, Heap, ReadsInOrder}
use mqtgcalls.Host.Playback.{endings}
use mqtgcalls.Host.Transport.{checked, checked_attached, delivered, joined}
use mqtgcalls.FileAudioDevice.Defs.{FileAudioDevice, recording_buffer_size, new_device}
use mqtgcalls.FileAudioDevice.Control.{attach_audio_buffer, init_recording, start_recording}
use mqtgcalls.FileAudioDevice.Threads.{Tick, rec_thread_func}
use mqtgcalls.FileAudioDevice.Calls as FileCalls
use mqtgcalls.FileAudioDevice.Rounds.{IsReady}
use mqtgcalls.FileAudioDevice.Playback.{IsPaddedTo, PlaysOnce, rec_thread_func-Plays_file}
use mqtgcalls.FileAudioDevice.Delivery.{PlaysOnce-AreOnce, func-delivered}
use mqtgcalls.WrappedAudioDeviceModule.{create_file}
use mqtgcalls.NativeInstance.Defs.{Ref, CallDescriptor}
use mqtgcalls.NativeInstance.Group.{
  group_of, create_audio_device_module, create_instance_holder, start_group_call_file,
}
use mqtgcalls.NativeInstance.Methods as Methods
use mqtgcalls.NativeInstance.Methods.{starts_file_call}
use mqtgcalls.Program.{
  Device, file_device, Program, Opening, Action, python, makes_adm, on_file, make_adm, make_device,
  call_file, run, act,
}

module _ {File : Type 0} (api : FileApi File) (heap : Heap) (files : ReadsInOrder api)
    (moved_from : Bytes → Bytes) (created : Bytes → CallDescriptor → Bool) where
  -- A call with a descriptor; the library makes the module and starts to record.
  abbrev pub call_start : Opening File → Ref → (playout_index record_index : ℤ) → List (Action File)
  call_start o descriptor playout_index record_index =
      python o (starts_file_call (some descriptor))
      ∷ makes_adm (pos 0) (pos 0) playout_index record_index
      ∷ on_file FileCalls.inits_recording
      ∷ on_file (FileCalls.starts_recording o.input o.answers)
      ∷ []

  -- The device has this descriptor, and its recording thread plays these bytes.
  abbrev pub PlaysFor : Ref → Bytes → Bytes → List Tick → Option (Device File) → Type 0
  PlaysFor descriptor bytes name ts (some (file_device ref d)) =
      let (more, after, events) = rec_thread_func api ts d in
      (ref ≡ some descriptor)
      × (checked d.audio_buffer events more ≡ some false)
      × IsPaddedTo bytes (joined (delivered [] events))
      × (endings events ≡ name ∷ [])
  PlaysFor descriptor bytes name ts _ = ⊥

  abbrev pub StartedPlays :
      Ref → Bytes → Bytes → List Tick → Option (Program File × List Event) → Type 0
  StartedPlays descriptor bytes name ts none = ⊥
  StartedPlays descriptor bytes name ts (some (p, es)) = PlaysFor descriptor bytes name ts p.adm

  abbrev started : Opening File → ℤ → ℤ → FileAudioDevice File
  started o playout_index record_index =
      (start_recording api heap o.input o.answers
        (init_recording (attach_audio_buffer (new_device api playout_index record_index)).1).1).1

  started-IsReady :
      (o : Opening File) (p r : ℤ)
      → is_empty o.answers.input_filename ≡ false
      → api.is_open o.input ≡ true
      → IsReady api files (started o p r) (heap.alloc recording_buffer_size)
  unfolding start_recording init_recording attach_audio_buffer new_device
  started-IsReady o p r named opened = ground (arith, heap.length-alloc recording_buffer_size)

  started_file :
      (o : Opening File) (p r : ℤ)
      → is_empty o.answers.input_filename ≡ false
      → api.is_open o.input ≡ true
      → ((started o p r).input_file ≡ o.input) × ((started o p r).last_call_record_millis ≡ 0)
  unfolding start_recording init_recording attach_audio_buffer new_device
  started_file o p r named opened = ground arith

  started-attached : (o : Opening File) (p r : ℤ) → (started o p r).audio_buffer ≡ true
  unfolding start_recording init_recording attach_audio_buffer new_device
  started-attached o p r = ground arith

  -- A group call that plays a file, from any state of the object. Python starts the call with a
  -- file descriptor; the library has the factory make the module, initializes its recording and
  -- starts it; the file is named, opens and is read in order; every round of the recording thread
  -- is due, not paused, not endless, with a callback that is set and one name for the file; and
  -- there are rounds for the bytes of the file and one more block. Then no call goes through a
  -- null pointer, to the descriptor or, in the start and in the rounds, to the transport; the
  -- device has that descriptor; its recording thread returns; the audio that a new transport
  -- passes on, block for block as it is told to deliver, is exactly the bytes of the file,
  -- followed by less than one block of padding up to a whole number of blocks; and the end is
  -- announced once, by that name.
  pub group_call_plays_file :
      (o : Opening File) (descriptor : Ref) (playout_index record_index : ℤ) (p : Program File)
      (name : Bytes) (ts : List Tick)
      → is_empty o.answers.input_filename ≡ false
      → api.is_open o.input ≡ true
      → PlaysOnce name 0 ts
      → length (files.rest o.input) + recording_buffer_size ≤ recording_buffer_size * length ts
      → StartedPlays descriptor
          (files.rest o.input)
          name
          ts
          (run api heap moved_from created (call_start o descriptor playout_index record_index) p)
  unfolding run act Methods.step start_group_call_file create_instance_holder make_adm group_of
      create_audio_device_module make_device create_file call_file FileCalls.step
      FileCalls.checked_step init_recording attach_audio_buffer new_device
  group_call_plays_file o descriptor playout_index record_index p name ts named opened once enough =
      let (input, clock) = started_file o playout_index record_index named opened in
      let (over, padded, ends) =
        rec_thread_func-Plays_file api files name ts (started o playout_index record_index) _
          (started-IsReady o playout_index record_index named opened) (rw clock once)
          (rw input enough) in
      rw (run, started-attached o playout_index record_index)
        (
          refl,
          checked_attached _ _ _ (started-attached o playout_index record_index) ∙ ap some over,
          rw
              (func-delivered api [] ts (started o playout_index record_index)
                (PlaysOnce-AreOnce name 0 ts once))
              (rw input at padded),
          ends,
        )

  -- If the library has the factory of a call with a file descriptor make a second module, and
  -- starts to record with it, there is a call through a null pointer, from any state of the
  -- object and whatever the files: the first module took the descriptor away.
  pub second_module_faults :
      (o : Opening File) (descriptor : Ref) (p r p' r' : ℤ) (program : Program File)
      → run api heap moved_from created
          (call_start o descriptor p r
            ++ (makes_adm (pos 0) (pos 0) p' r'
                ∷ on_file (FileCalls.starts_recording o.input o.answers)
                ∷ []))
          program
        ≡ none
  unfolding run act Methods.step start_group_call_file create_instance_holder make_adm group_of
      create_audio_device_module make_device create_file call_file FileCalls.step
      FileCalls.checked_step init_recording attach_audio_buffer new_device
  second_module_faults o descriptor p r p' r' program = rw (run, started-attached o p r) refl
