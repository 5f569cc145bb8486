-- ===== src/Program/Relay.antt =====
-- From `startGroupCall` with a raw descriptor to the audio that passes through the callbacks.
use mqtgcalls.Prelude.{
  Bytes, Bool, true, List, [], ◌∷◌, Option, none, some, ◌≡◌, refl, ◌∙◌, ◌++◌, arith, pos, ℤ,
}
use mqtgcalls.Host.{Event}
use mqtgcalls.Host.Files.{FileApi, Heap}
use mqtgcalls.Host.Playback.{relayed}
use mqtgcalls.Host.Transport.{checked, delivered, joined}
use mqtgcalls.Host.Turns.{Turn, play_turns, rec_turns, run_turns}
use mqtgcalls.RawAudioDevice.Defs.{RawAudioDevice, playout_buffer_size, new_device}
use mqtgcalls.RawAudioDevice.Control.{
  attach_audio_buffer, init_playout, init_recording, start_playout, start_recording,
}
use mqtgcalls.RawAudioDevice.Threads.{Tick}
use mqtgcalls.RawAudioDevice.Calls as RawCalls
use mqtgcalls.RawAudioDevice.Relay.{
  PlaysBlocks, GivesBlocks, IsPlaying, heard, spoken, play_thread_func-relays,
  rec_thread_func-captures,
}
use mqtgcalls.RawAudioDevice.Turns.{raw_halves, raw_threads_apart}
use mqtgcalls.RawAudioDevice.Delivery.{func-delivered}
use mqtgcalls.WrappedAudioDeviceModule.{create_raw}
use mqtgcalls.NativeInstance.Defs.{Ref, CallDescriptor}
use mqtgcalls.NativeInstance.Group.{
  group_of, create_audio_device_module, create_instance_holder, start_group_call_raw,
}
use mqtgcalls.NativeInstance.Methods as Methods
use mqtgcalls.NativeInstance.Methods.{starts_raw_call}
use mqtgcalls.Program.{
  Device, raw_device, Program, Opening, Action, python, makes_adm, on_raw, make_adm, make_device,
  call_raw, run, act,
}

-- The device has this descriptor, and its threads carry the audio of these rounds both ways.
abbrev pub RelaysFor : {File : Type 0} → Ref → List (Turn Tick) → Option (Device File) → Type 0
RelaysFor descriptor turns (some (raw_device ref d)) =
    let ((play_on, played), (rec_on, recorded), after) = run_turns raw_halves turns true true d in
    (ref ≡ some descriptor)
    × (checked {R = Bool × Bool} d.audio_buffer (played ++ recorded) (play_on, rec_on)
        ≡ some (true, true))
    × (relayed played ≡ heard (play_turns turns))
    × (joined (delivered [] recorded) ≡ spoken (rec_turns turns))
RelaysFor descriptor turns _ = ⊥

abbrev pub StartedRelays :
    {File : Type 0} → Ref → List (Turn Tick) → Option (Program File × List Event) → Type 0
StartedRelays descriptor turns none = ⊥
StartedRelays descriptor turns (some (p, es)) = RelaysFor descriptor turns p.adm

-- A call with a descriptor; the library makes the module and starts both sides.
abbrev pub raw_call_start :
    {File : Type 0} → Opening File → Ref → (playout_index record_index : ℤ) → List (Action File)
raw_call_start o descriptor playout_index record_index =
    python o (starts_raw_call (some descriptor))
    ∷ makes_adm (pos 0) (pos 0) playout_index record_index
    ∷ on_raw RawCalls.inits_playout
    ∷ on_raw RawCalls.starts_playout
    ∷ on_raw RawCalls.inits_recording
    ∷ on_raw RawCalls.starts_recording
    ∷ []

module _ (heap : Heap) where
  abbrev playing : ℤ → ℤ → RawAudioDevice
  playing playout_index record_index =
      (start_playout heap
        (init_playout (attach_audio_buffer (new_device playout_index record_index)).1).1).1

  abbrev started : ℤ → ℤ → RawAudioDevice
  started playout_index record_index =
      (start_recording heap (init_recording (playing playout_index record_index)).1).1

  started-IsPlaying : (p r : ℤ) → IsPlaying (started p r)
  unfolding start_playout start_recording init_recording init_playout attach_audio_buffer new_device
  started-IsPlaying p r = record {
    playing = refl;
    has_buffer = (heap.alloc playout_buffer_size, refl, heap.length-alloc playout_buffer_size);
  }

  started_lem :
      (p r : ℤ)
      → ((started p r).recording ≡ true)
        × ((started p r).recording_frames_in_10ms ≡ 480)
        × ((started p r).last_call_playout_millis ≡ 0)
        × ((started p r).last_call_record_millis ≡ 0)
  unfolding start_playout start_recording init_recording init_playout attach_audio_buffer new_device
  started_lem p r = ground arith

  started-attached : (p r : ℤ) → (started p r).audio_buffer ≡ true
  unfolding start_playout start_recording init_recording init_playout attach_audio_buffer new_device
  started-attached p r = ground arith

  module _ {File : Type 0} (api : FileApi File) (moved_from : Bytes → Bytes)
      (created : Bytes → CallDescriptor → Bool) where
    -- A group call with a raw descriptor carries audio both ways, from any state of the object.
    -- Python starts the call; the library has the factory make the module, and initializes and
    -- starts playout and recording; the rounds of the two threads follow in any order; each round
    -- is due and has a block of 1920 bytes, from the transport for playout and from the callback
    -- for recording. Then no call goes through a null pointer, to the descriptor or, in the start
    -- and in the rounds, to the transport; the device has that descriptor; both threads go on;
    -- the callback for playout is given exactly the audio of the rounds in which recording was
    -- not paused, in order; and the audio that a new transport passes on, block for block as it
    -- is told to deliver, is exactly what the callback gave in the rounds in which playout was
    -- not paused, in order.
    pub group_call_relays :
        (o : Opening File) (descriptor : Ref) (playout_index record_index : ℤ) (p : Program File)
        (turns : List (Turn Tick))
        → PlaysBlocks 0 (play_turns turns)
        → GivesBlocks 0 (rec_turns turns)
        → StartedRelays descriptor turns (
            run api heap moved_from created
              (raw_call_start o descriptor playout_index record_index)
              p)
    unfolding run act Methods.step start_group_call_raw create_instance_holder make_adm group_of
        create_audio_device_module make_device create_raw call_raw RawCalls.step
        RawCalls.checked_step init_playout attach_audio_buffer new_device start_playout
        init_recording start_recording
    group_call_relays o descriptor playout_index record_index p turns plays gives =
        let device = started playout_index record_index in
        let (on, frames, play_clock, rec_clock) = started_lem playout_index record_index in
        let (play_on, audio) =
          play_thread_func-relays (play_turns turns) device
            (started-IsPlaying playout_index record_index) (rw play_clock plays) in
        let (rec_on, voice) =
          rec_thread_func-captures (rec_turns turns) device on frames (rw rec_clock gives) in
        rw
          (
            raw_threads_apart turns device,
            started-attached playout_index record_index,
            play_on,
            rec_on,
          )
          (refl, refl, audio, func-delivered [] (rec_turns turns) device ∙ voice)
