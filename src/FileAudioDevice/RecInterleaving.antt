-- ===== src/FileAudioDevice/RecInterleaving.antt =====
-- The recording thread of a file device beside the thread that starts and stops it:
-- `StartRecording`, `StopRecording` and `RecThreadProcess` of src/FileAudioDevice.cpp, an access to
-- what they share at a time, in any order. The caller goes through the stages of `Interleaving`;
-- `StartRecording`, which does not test `_recording`, is called only where that is false.
pub mod Safety
pub mod Shutdown
use mqtgcalls.Prelude.{Bool, true, false, ◌≡◌}
use mqtgcalls.FileAudioDevice.Interleaving.{
  Holder, nobody, caller_holds, worker_holds, other_holds, Caller, between, starting, stop_locking,
  stop_marking, joining, free_locking, freeing,
}

-- Where the recording thread stands: at the test of the loop, at `Lock`, at the two tests, at
-- `Read`, at `SetRecordedBuffer`, before the inner `Unlock`, at `DeliverRecordedData`, at the second
-- `Lock`, before the last `Unlock`, before the sleep; past the early `Unlock`, at the callback; or it
-- has returned, or there is none.
pub data Recorder : Type 0 where
  absent looping locking testing reading handing unlocking delivering relocking finishing pacing :
      Recorder
  announcing returned : Recorder

-- `buffer`: `_recordingBuffer` points to memory.
pub record RecSystem : Type 0 where
  pub recording : Bool
  pub buffer : Bool
  pub mutex : Holder
  pub worker : Recorder
  pub caller : Caller

pub data RecorderMove (s : RecSystem) : RecSystem → Type 0 where
  goes_on : s.worker ≡ looping → s.recording ≡ true → RecorderMove s (record s { worker = locking })
  returns :
      s.worker ≡ looping → s.recording ≡ false → RecorderMove s (record s { worker = returned })
  locks :
      s.worker ≡ locking
      → s.mutex ≡ nobody
      → RecorderMove s (record s { mutex = worker_holds; worker = testing })
  is_due : s.worker ≡ testing → RecorderMove s (record s { worker = reading })
  is_early : s.worker ≡ testing → RecorderMove s (record s { worker = finishing })
  reads : s.worker ≡ reading → RecorderMove s (record s { worker = handing })
  rewinds : s.worker ≡ reading → RecorderMove s (record s { worker = unlocking })
  ends : s.worker ≡ reading → RecorderMove s (record s { mutex = nobody; worker = announcing })
  hands : s.worker ≡ handing → RecorderMove s (record s { worker = unlocking })
  gives_up :
      s.worker ≡ unlocking → RecorderMove s (record s { mutex = nobody; worker = delivering })
  delivers : s.worker ≡ delivering → RecorderMove s (record s { worker = relocking })
  relocks :
      s.worker ≡ relocking
      → s.mutex ≡ nobody
      → RecorderMove s (record s { mutex = worker_holds; worker = finishing })
  unlocks : s.worker ≡ finishing → RecorderMove s (record s { mutex = nobody; worker = pacing })
  sleeps : s.worker ≡ pacing → RecorderMove s (record s { worker = looping })
  announces : s.worker ≡ announcing → RecorderMove s (record s { worker = returned })

pub data RecCallerMove (s : RecSystem) : RecSystem → Type 0 where
  starts :
      s.caller ≡ between
      → s.recording ≡ false
      → RecCallerMove s (record s { recording = true; buffer = true; caller = starting })
  launches : s.caller ≡ starting → RecCallerMove s (record s { worker = looping; caller = between })
  fails :
      s.caller ≡ starting
      → RecCallerMove s (record s { recording = false; buffer = false; caller = between })
  stops : s.caller ≡ between → RecCallerMove s (record s { caller = stop_locking })
  stop_locks :
      s.caller ≡ stop_locking
      → s.mutex ≡ nobody
      → RecCallerMove s (record s { mutex = caller_holds; caller = stop_marking })
  marks :
      s.caller ≡ stop_marking
      → RecCallerMove s (record s { recording = false; mutex = nobody; caller = joining })
  joins :
      s.caller ≡ joining
      → s.worker ≡ returned
      → RecCallerMove s (record s { worker = absent; caller = free_locking })
  joins_none :
      s.caller ≡ joining → s.worker ≡ absent → RecCallerMove s (record s { caller = free_locking })
  free_locks :
      s.caller ≡ free_locking
      → s.mutex ≡ nobody
      → RecCallerMove s (record s { mutex = caller_holds; caller = freeing })
  frees :
      s.caller ≡ freeing
      → RecCallerMove s (record s { buffer = false; mutex = nobody; caller = between })

pub data RecOtherMove (s : RecSystem) : RecSystem → Type 0 where
  other_locks : s.mutex ≡ nobody → RecOtherMove s (record s { mutex = other_holds })
  other_unlocks : s.mutex ≡ other_holds → RecOtherMove s (record s { mutex = nobody })

pub data RecStep (s t : RecSystem) : Type 0 where
  by_worker : RecorderMove s t → RecStep s t
  by_caller : RecCallerMove s t → RecStep s t
  by_other : RecOtherMove s t → RecStep s t

-- A new device.
abbrev pub rec_init : RecSystem
rec_init = record {
  recording = false;
  buffer = false;
  mutex = nobody;
  worker = absent;
  caller = between;
}

pub data RecReach : RecSystem → Type 0 where
  start : RecReach rec_init
  later : {s t : RecSystem} → RecReach s → RecStep s t → RecReach t
