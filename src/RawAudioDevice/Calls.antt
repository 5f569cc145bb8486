-- ===== src/RawAudioDevice/Calls.antt =====
-- Every call that changes a device, as data: those of the audio module and the rounds of the two
-- worker threads. Between two of them the device is not touched.
use mqtgcalls.Prelude.{ℕ, List, [], ◌∷◌, Option}
use mqtgcalls.Prelude.Monad.{pure, ◌>>◌}
use mqtgcalls.Host.{Event}
use mqtgcalls.Host.Transport.{checked}
use mqtgcalls.Host.Files.{Heap}
use mqtgcalls.RawAudioDevice.Defs.{RawAudioDevice, DeviceM}
use mqtgcalls.RawAudioDevice.Control.{
  set_playout_device, set_recording_device, init_playout, init_recording, attach_audio_buffer,
  start_playout, stop_playout, start_recording, stop_recording,
}
use mqtgcalls.RawAudioDevice.Threads.{Tick, play_thread_process, rec_thread_process}

pub data Call : Type 0 where
  selects_playout selects_recording : ℕ → Call
  attaches inits_playout inits_recording : Call
  starts_playout starts_recording stops_playout stops_recording : Call
  plays records : Tick → Call

-- A call for its effect.
abbrev ignore : {A : Type 0} → DeviceM A → DeviceM (Unit {0})
ignore m d = (tt, (m d).1, (m d).2)

unfoldable pub step : Heap → Call → DeviceM (Unit {0})
step heap (selects_playout index) = ignore (set_playout_device index)
step heap (selects_recording index) = ignore (set_recording_device index)
step heap attaches = attach_audio_buffer
step heap inits_playout = ignore init_playout
step heap inits_recording = ignore init_recording
step heap starts_playout = ignore (start_playout heap)
step heap starts_recording = ignore (start_recording heap)
step heap stops_playout = ignore stop_playout
step heap stops_recording = ignore stop_recording
step heap (plays t) = ignore (play_thread_process t)
step heap (records t) = ignore (rec_thread_process t)

-- The same, with a call to the transport through a null `_ptrAudioBuffer` as a fault, `none`: the
-- pointer, once set, stays set.
unfoldable pub checked_step : Heap → Call → RawAudioDevice → Option (RawAudioDevice × List Event)
checked_step heap c d = let (done, d', es) = step heap c d in checked d'.audio_buffer es (d', es)

unfoldable pub run : Heap → List Call → DeviceM (Unit {0})
run heap [] = pure tt
run heap (c ∷ cs) = do step heap c; run heap cs
