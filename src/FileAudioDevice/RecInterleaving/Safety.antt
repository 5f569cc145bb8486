-- ===== src/FileAudioDevice/RecInterleaving/Safety.antt =====
-- The invariant of RecThreadProcess beside StartRecording and StopRecording.
use mqtgcalls.Prelude.{Bool, true, false, ◌≡◌, ◌⊎◌, arith}
use mqtgcalls.FileAudioDevice.Interleaving.{worker_holds}
use mqtgcalls.FileAudioDevice.Interleaving.Safety.{holds_as_caller, Held, Staged}
use mqtgcalls.FileAudioDevice.RecInterleaving.{
  Recorder, absent, testing, reading, handing, unlocking, finishing, RecSystem, RecorderMove,
  RecCallerMove, RecOtherMove, other_locks, other_unlocks, RecStep, by_worker, by_caller, by_other,
  RecReach, start, later,
}

-- A thread that has returned is still to be joined.
abbrev pub recorder_lives : Recorder → Bool
recorder_lives absent = false
recorder_lives _ = true

abbrev pub holds_as_recorder : Recorder → Bool
holds_as_recorder testing = true
holds_as_recorder reading = true
holds_as_recorder handing = true
holds_as_recorder unlocking = true
holds_as_recorder finishing = true
holds_as_recorder _ = false

pub record RecInv (s : RecSystem) : Type 0 where
  pub held : Held s.mutex (holds_as_recorder s.worker) (holds_as_caller s.caller)
  pub staged : Staged s.caller s.recording s.buffer (recorder_lives s.worker)

pub RecorderMove-RecInv : {s t : RecSystem} → RecorderMove s t → RecInv s → RecInv t
RecorderMove-RecInv (RecorderMove.goes_on w p) v = ground arith
RecorderMove-RecInv (RecorderMove.returns w p) v = ground arith
RecorderMove-RecInv (RecorderMove.locks w m) v = ground arith
RecorderMove-RecInv (RecorderMove.is_due w) v = ground arith
RecorderMove-RecInv (RecorderMove.is_early w) v = ground arith
RecorderMove-RecInv (RecorderMove.reads w) v = ground arith
RecorderMove-RecInv (RecorderMove.rewinds w) v = ground arith
RecorderMove-RecInv (RecorderMove.ends w) v = ground arith
RecorderMove-RecInv (RecorderMove.hands w) v = ground arith
RecorderMove-RecInv (RecorderMove.gives_up w) v = ground arith
RecorderMove-RecInv (RecorderMove.delivers w) v = ground arith
RecorderMove-RecInv (RecorderMove.relocks w m) v = ground arith
RecorderMove-RecInv (RecorderMove.unlocks w) v = ground arith
RecorderMove-RecInv (RecorderMove.sleeps w) v = ground arith
RecorderMove-RecInv (RecorderMove.announces w) v = ground arith

RecCallerMove-RecInv : {s t : RecSystem} → RecCallerMove s t → RecInv s → RecInv t
RecCallerMove-RecInv (RecCallerMove.starts c p) v = ground arith
RecCallerMove-RecInv (RecCallerMove.launches c) v = ground arith
RecCallerMove-RecInv (RecCallerMove.fails c) v = ground arith
RecCallerMove-RecInv (RecCallerMove.stops c) v = ground arith
RecCallerMove-RecInv (RecCallerMove.stop_locks c m) v = ground arith
RecCallerMove-RecInv (RecCallerMove.marks c) v = ground arith
RecCallerMove-RecInv (RecCallerMove.joins c w) v = ground arith
RecCallerMove-RecInv (RecCallerMove.joins_none c w) v = ground arith
RecCallerMove-RecInv (RecCallerMove.free_locks c m) v = ground arith
RecCallerMove-RecInv (RecCallerMove.frees c) v = ground arith

pub RecOtherMove-RecInv : {s t : RecSystem} → RecOtherMove s t → RecInv s → RecInv t
RecOtherMove-RecInv (other_locks m) v = ground arith
RecOtherMove-RecInv (other_unlocks m) v = ground arith

RecStep-RecInv : {s t : RecSystem} → RecStep s t → RecInv s → RecInv t
RecStep-RecInv (by_worker m) v = RecorderMove-RecInv m v
RecStep-RecInv (by_caller m) v = RecCallerMove-RecInv m v
RecStep-RecInv (by_other m) v = RecOtherMove-RecInv m v

pub RecReach-RecInv : {s : RecSystem} → RecReach s → RecInv s
RecReach-RecInv start = ground arith
RecReach-RecInv (later r st) = RecStep-RecInv st (RecReach-RecInv r)

-- In every interleaving of the recording thread, the thread that starts recording where it does
-- not run and stops it, and others who take the mutex: while the recording thread reads the file
-- into the recording buffer or hands the buffer to the transport, the buffer is there and the
-- recording thread holds the mutex.
pub recording_safe :
    (s : RecSystem)
    → RecReach s
    → (s.worker ≡ reading) ⊎ (s.worker ≡ handing)
    → (s.buffer ≡ true) × (s.mutex ≡ worker_holds)
recording_safe s r w = ground (arith, RecReach-RecInv r)
