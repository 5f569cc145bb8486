-- ===== src/Program.antt =====
-- The parts together: the object that Python holds (src/NativeInstance.cpp), the module that its
-- factory makes (src/WrappedAudioDeviceModuleImpl.cpp), and the device behind that module. The
-- library keeps the module as long as its group instance.
pub mod Modules
pub mod Attached
pub mod Invariant
pub mod Safety
pub mod Playback
pub mod Relay
pub mod Restart
use mathlib.Core.Option
use mqtgcalls.Prelude.{
  Bytes, Bool, true, false, List, [], ◌∷◌, ◌++◌, Option, none, some, ℤ, ◌&&◌, ◌||◌, not,
  if◌then◌else◌,
}
use mqtgcalls.Host.{Event}
use mqtgcalls.Host.Transport.{checked}
use mqtgcalls.Host.Files.{FileApi, Heap}
use mqtgcalls.FileAudioDevice.Defs.{FileAudioDevice, FileAudioDeviceDescriptor}
use mqtgcalls.FileAudioDevice.Threads.{is_due}
use mqtgcalls.FileAudioDevice.Control as FileControl
use mqtgcalls.FileAudioDevice.Calls as FileCalls
use mqtgcalls.RawAudioDevice.Defs.{RawAudioDevice}
use mqtgcalls.RawAudioDevice.Control as RawControl
use mqtgcalls.RawAudioDevice.Calls as RawCalls
use mqtgcalls.AudioModule.{
  AudioDeviceModule, stop_audio_device_module, start_audio_device_module,
  restart_audio_input_device, restart_audio_output_device,
}
use mqtgcalls.AudioModule.Devices.{file_module, raw_module}
use mqtgcalls.WrappedAudioDeviceModule.{create_file, create_raw}
use mqtgcalls.NativeInstance.Defs.{
  Ref, Factory, file_factory, raw_factory, platform_factory, GroupDescriptor, CallDescriptor,
  NativeInstance, Effect, group_destroyed,
}
use mqtgcalls.NativeInstance.Group.{
  GroupCall, stops_audio_device_module, starts_audio_device_module, restarts_audio_input_device,
  restarts_audio_output_device, group_of, create_audio_device_module,
}
use mqtgcalls.NativeInstance.Methods as Methods
use mqtgcalls.NativeInstance.Methods.{Method, calls_group}

-- A device with the `shared_ptr` to its descriptor, which may be null.
pub data Device (File : Type 0) : Type 0 where
  file_device : Option Ref → FileAudioDevice File → Device File
  raw_device : Option Ref → RawAudioDevice → Device File

-- `adm`: the device behind the module of the group instance, if it has one of ours.
pub record Program (File : Type 0) : Type 0 where
  pub native : NativeInstance
  pub adm : Option (Device File)

-- What opening the two files gives while a call runs, and the answers of the descriptor.
pub record Opening (File : Type 0) : Type 0 where
  pub output : File
  pub input : File
  pub answers : FileAudioDeviceDescriptor

-- What may happen: Python calls a method, the library has the factory make a module, the library
-- calls the module's device or a thread of the device runs a round.
pub data Action (File : Type 0) : Type 0 where
  python : Opening File → Method → Action File
  makes_adm : (platform status playout_index record_index : ℤ) → Action File
  on_file : FileCalls.Call File → Action File
  on_raw : RawCalls.Call → Action File

-- The group instance was destroyed, and its module with it.
abbrev pub destroyed : List Effect → Bool
destroyed [] = false
destroyed (group_destroyed ∷ es) = true
destroyed (e ∷ es) = destroyed es

-- Whether a call reads the descriptor of a file device, by `->` on its `shared_ptr`.
abbrev pub file_reads_descriptor :
    {File : Type 0} → FileApi File → FileCalls.Call File → FileAudioDevice File → Bool
file_reads_descriptor api (FileCalls.starts_playout opened answers) d = not d.playing
file_reads_descriptor api (FileCalls.starts_recording opened answers) d = true
file_reads_descriptor api (FileCalls.plays t) d =
    d.playing && (is_due d.last_call_playout_millis t.now && api.is_open d.output_file)
file_reads_descriptor api (FileCalls.records t) d =
    d.recording && (is_due d.last_call_record_millis t.now && api.is_open d.input_file)
file_reads_descriptor api _ d = false

abbrev pub raw_reads_descriptor : RawCalls.Call → RawAudioDevice → Bool
raw_reads_descriptor (RawCalls.plays t) d = d.playing && is_due d.last_call_playout_millis t.now
raw_reads_descriptor (RawCalls.records t) d = d.recording && is_due d.last_call_record_millis t.now
raw_reads_descriptor _ d = false

-- Whether a call that works on the module starts a side.
abbrev pub starts_side : (recording playing : Bool) → GroupCall → Bool
starts_side recording playing starts_audio_device_module = not recording || not playing
starts_side recording playing restarts_audio_input_device = recording
starts_side recording playing restarts_audio_output_device = true
starts_side recording playing _ = false

abbrev pub is_none : {A : Type 0} → Option A → Bool
is_none none = true
is_none (some a) = false

-- What `performWithAudioDeviceModule` does to a module, for the calls that use it.
abbrev pub perform : {S E : Type 0} → AudioDeviceModule S E → GroupCall → S → S × List E
perform adm stops_audio_device_module s =
    ((stop_audio_device_module adm true s).1, (stop_audio_device_module adm true s).2)
perform adm starts_audio_device_module s =
    ((start_audio_device_module adm true s).1, (start_audio_device_module adm true s).2)
perform adm restarts_audio_input_device s =
    ((restart_audio_input_device adm true s).1, (restart_audio_input_device adm true s).2)
perform adm restarts_audio_output_device s =
    ((restart_audio_output_device adm true s).1, (restart_audio_output_device adm true s).2)
perform adm _ s = (s, [])

module _ {File : Type 0} (api : FileApi File) (heap : Heap) where
  -- `->` on a null `shared_ptr` is a fault, `none`, and so is a call to a transport that is not there.
  unfoldable pub on_module :
      Opening File → GroupCall → Option (Device File) → Option (Option (Device File) × List Event)
  on_module o c none = some (none, [])
  on_module o c (some (file_device ref d)) =
      if is_none ref && starts_side d.recording d.playing c
      then none
      else (let (d', es) = perform (file_module api heap o.output o.input o.answers) c d in
          checked d'.audio_buffer es (some (file_device ref d'), es))
  on_module o c (some (raw_device ref d)) =
      let (d', es) = perform (raw_module heap) c d in
      checked d'.audio_buffer es (some (raw_device ref d'), es)

  -- WebRTC's `AttachAudioBuffer` calls the device's, and returns `status`.
  unfoldable pub make_device :
      Factory → Option Ref → (platform status playout_index record_index : ℤ) → Option (Device File)
  make_device file_factory ref platform status playout_index record_index =
      Option.map (file_device ref) (
        create_file api platform (λ d. (status, (FileControl.attach_audio_buffer d).1))
          playout_index record_index)
  make_device raw_factory ref platform status playout_index record_index =
      Option.map (raw_device ref) (
        create_raw platform (λ d. (status, (RawControl.attach_audio_buffer d).1)) playout_index
          record_index)
  make_device platform_factory ref platform status playout_index record_index = none

  abbrev pub make_for :
      Option GroupDescriptor
      → (platform status playout_index record_index : ℤ) → Program File
      → Program File
  make_for none platform status playout_index record_index p = p
  make_for (some g) platform status playout_index record_index p =
      let (ref, native) = create_audio_device_module p.native g.create_audio_device_module in
      record {
        native = native;
        adm =
            make_device g.create_audio_device_module ref platform status playout_index record_index;
      }

  -- The library calls the factory that the group instance was made with.
  unfoldable pub make_adm :
      (platform status playout_index record_index : ℤ) → Program File → Program File
  make_adm platform status playout_index record_index p =
      make_for (group_of p.native) platform status playout_index record_index p

  -- A call that finds no device of its kind does not happen.
  unfoldable pub call_file :
      FileCalls.Call File → Option (Device File) → Option (Option (Device File) × List Event)
  call_file c (some (file_device ref d)) =
      if is_none ref && file_reads_descriptor api c d
      then none
      else Option.map (λ (d', es). (some (file_device ref d'), es))
          (FileCalls.checked_step api heap c d)
  call_file c adm = some (adm, [])

  unfoldable pub call_raw :
      RawCalls.Call → Option (Device File) → Option (Option (Device File) × List Event)
  call_raw c (some (raw_device ref d)) =
      if is_none ref && raw_reads_descriptor c d
      then none
      else Option.map (λ (d', es). (some (raw_device ref d'), es)) (RawCalls.checked_step heap c d)
  call_raw c adm = some (adm, [])

  abbrev pub with_adm :
      NativeInstance
      → Option (Option (Device File) × List Event)
      → Option (Program File × List Event)
  with_adm native r = Option.map (λ (adm, es). (record { native = native; adm = adm }, es)) r

  -- A method, after the object has done its part: some go on to the module.
  abbrev pub after_method :
      Opening File
      → Method
      → NativeInstance
      → Option (Device File)
      → Option (Program File × List Event)
  after_method o (calls_group c) native adm = with_adm native (on_module o c adm)
  after_method o m native adm = some (record { native = native; adm = adm }, [])

  abbrev pub after_step :
      Opening File
      → Method
      → Option (Device File)
      → Option (NativeInstance × List Effect)
      → Option (Program File × List Event)
  after_step o m adm none = none
  after_step o m adm (some (native, es)) =
      after_method o m native (if destroyed es then none else adm)

  module _ (moved_from : Bytes → Bytes) (created : Bytes → CallDescriptor → Bool) where
    unfoldable pub act : Action File → Program File → Option (Program File × List Event)
    act (python o m) p = after_step o m p.adm (Methods.step moved_from created m p.native)
    act (makes_adm platform status playout_index record_index) p =
        some (make_adm platform status playout_index record_index p, [])
    act (on_file c) p = with_adm p.native (call_file c p.adm)
    act (on_raw c) p = with_adm p.native (call_raw c p.adm)

    -- The actions one after the other, up to the first fault, with the calls of the devices.
    unfoldable pub run : List (Action File) → Program File → Option (Program File × List Event)
    run [] p = some (p, [])
    run (a ∷ rest) p = elim (act a p) [
      | none ↦ none
      | some (p', es) ↦ elim (run rest p') [ none ↦ none | some (p'', fs) ↦ some (p'', es ++ fs) ]
    ]
