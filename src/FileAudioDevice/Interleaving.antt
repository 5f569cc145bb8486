-- ===== src/FileAudioDevice/Interleaving.antt =====
-- The playout thread of a file device beside the thread that starts and stops it: `StartPlayout`,
-- `StopPlayout` and `PlayThreadProcess` of src/FileAudioDevice.cpp, an access to what they share at
-- a time, in any order. Everybody else who takes `mutex_` is `other`.
pub mod Safety
pub mod Shutdown
use mqtgcalls.Prelude.{Bool, true, false, ◌≡◌}

pub data Holder : Type 0 where
  nobody caller_holds worker_holds other_holds : Holder

-- Where the playout thread stands: at the test of the loop, at `Lock`, at the time test, before
-- `RequestPlayoutData`, at the second `Lock`, at the transfer through the buffer, before the last
-- `Unlock`, before the sleep; or it has returned, or there is none.
pub data Worker : Type 0 where
  absent looping locking testing requesting relocking transferring finishing pacing returned :
      Worker

-- Where the caller stands: between two calls, before the thread of `StartPlayout`, and at each
-- stage of `StopPlayout`.
pub data Caller : Type 0 where
  between starting stop_locking stop_marking joining free_locking freeing : Caller

-- `buffer`: `_playoutBuffer` points to memory.
pub record System : Type 0 where
  pub playing : Bool
  pub buffer : Bool
  pub mutex : Holder
  pub worker : Worker
  pub caller : Caller

pub data WorkerMove (s : System) : System → Type 0 where
  goes_on : s.worker ≡ looping → s.playing ≡ true → WorkerMove s (record s { worker = locking })
  returns : s.worker ≡ looping → s.playing ≡ false → WorkerMove s (record s { worker = returned })
  locks :
      s.worker ≡ locking
      → s.mutex ≡ nobody
      → WorkerMove s (record s { mutex = worker_holds; worker = testing })
  is_due : s.worker ≡ testing → WorkerMove s (record s { mutex = nobody; worker = requesting })
  is_early : s.worker ≡ testing → WorkerMove s (record s { worker = finishing })
  requests : s.worker ≡ requesting → WorkerMove s (record s { worker = relocking })
  relocks :
      s.worker ≡ relocking
      → s.mutex ≡ nobody
      → WorkerMove s (record s { mutex = worker_holds; worker = transferring })
  transfers : s.worker ≡ transferring → WorkerMove s (record s { worker = finishing })
  unlocks : s.worker ≡ finishing → WorkerMove s (record s { mutex = nobody; worker = pacing })
  sleeps : s.worker ≡ pacing → WorkerMove s (record s { worker = looping })

pub data CallerMove (s : System) : System → Type 0 where
  starts :
      s.caller ≡ between
      → s.playing ≡ false
      → CallerMove s (record s { playing = true; buffer = true; caller = starting })
  launches : s.caller ≡ starting → CallerMove s (record s { worker = looping; caller = between })
  fails :
      s.caller ≡ starting
      → CallerMove s (record s { playing = false; buffer = false; caller = between })
  stops : s.caller ≡ between → CallerMove s (record s { caller = stop_locking })
  stop_locks :
      s.caller ≡ stop_locking
      → s.mutex ≡ nobody
      → CallerMove s (record s { mutex = caller_holds; caller = stop_marking })
  marks :
      s.caller ≡ stop_marking
      → CallerMove s (record s { playing = false; mutex = nobody; caller = joining })
  joins :
      s.caller ≡ joining
      → s.worker ≡ returned
      → CallerMove s (record s { worker = absent; caller = free_locking })
  joins_none :
      s.caller ≡ joining → s.worker ≡ absent → CallerMove s (record s { caller = free_locking })
  free_locks :
      s.caller ≡ free_locking
      → s.mutex ≡ nobody
      → CallerMove s (record s { mutex = caller_holds; caller = freeing })
  frees :
      s.caller ≡ freeing
      → CallerMove s (record s { buffer = false; mutex = nobody; caller = between })

pub data OtherMove (s : System) : System → Type 0 where
  other_locks : s.mutex ≡ nobody → OtherMove s (record s { mutex = other_holds })
  other_unlocks : s.mutex ≡ other_holds → OtherMove s (record s { mutex = nobody })

pub data Step (s t : System) : Type 0 where
  by_worker : WorkerMove s t → Step s t
  by_caller : CallerMove s t → Step s t
  by_other : OtherMove s t → Step s t

-- A new device.
abbrev pub init : System
init = record { playing = false; buffer = false; mutex = nobody; worker = absent; caller = between }

pub data Reach : System → Type 0 where
  start : Reach init
  later : {s t : System} → Reach s → Step s t → Reach t
