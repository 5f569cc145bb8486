-- ===== src/FileAudioDevice/Joint/Progress.antt =====
-- A stop that waits for its thread, with both threads at work.
use mqtgcalls.Prelude.{true, ◌≡◌, refl, ◌⊎◌, inl, inr, arith}
use mqtgcalls.Host as Thread
use mqtgcalls.FileAudioDevice.Interleaving.{
  other_holds, Worker, absent, testing, transferring, finishing, returned, between, joining, System,
  WorkerMove,
}
use mqtgcalls.FileAudioDevice.Interleaving.Safety.{Inv, Reach-Inv, holds_as_worker}
use mqtgcalls.FileAudioDevice.Interleaving.Shutdown.{join_progress}
use mqtgcalls.FileAudioDevice.RecInterleaving.{Recorder, RecSystem, RecorderMove}
use mqtgcalls.FileAudioDevice.RecInterleaving.Safety.{RecInv, RecReach-RecInv, holds_as_recorder}
use mqtgcalls.FileAudioDevice.RecInterleaving.Shutdown.{now, rec_join_returns}
use mqtgcalls.FileAudioDevice.Joint.{
  by_others, Joint, play_view, rec_view, JointStep, player_moves, recorder_moves, caller_plays,
  caller_records, others_lock, others_unlock, JointReach, start, later,
}
use mqtgcalls.FileAudioDevice.Joint.Safety.{joint_views}

-- A thread that holds the mutex can go on.
worker_holder_moves :
    (w : Worker) (s : System)
    → holds_as_worker w ≡ true
    → s.worker ≡ w
    → (t : System) × WorkerMove s t
worker_holder_moves testing s h e = (_, WorkerMove.is_due e)
worker_holder_moves transferring s h e = (_, WorkerMove.transfers e)
worker_holder_moves finishing s h e = (_, WorkerMove.unlocks e)
worker_holder_moves _ s h e = cc

recorder_holder_moves :
    (w : Recorder) (s : RecSystem)
    → holds_as_recorder w ≡ true
    → s.worker ≡ w
    → (t : RecSystem) × RecorderMove s t
recorder_holder_moves Recorder.testing s h e = (_, RecorderMove.is_due e)
recorder_holder_moves Recorder.reading s h e = (_, RecorderMove.reads e)
recorder_holder_moves Recorder.handing s h e = (_, RecorderMove.hands e)
recorder_holder_moves Recorder.unlocking s h e = (_, RecorderMove.gives_up e)
recorder_holder_moves Recorder.finishing s h e = (_, RecorderMove.unlocks e)
recorder_holder_moves _ s h e = cc

WorkerMove-caller : {s t : System} → WorkerMove s t → t.caller ≡ s.caller
WorkerMove-caller (WorkerMove.goes_on w p) = refl
WorkerMove-caller (WorkerMove.returns w p) = refl
WorkerMove-caller (WorkerMove.locks w m) = refl
WorkerMove-caller (WorkerMove.is_due w) = refl
WorkerMove-caller (WorkerMove.is_early w) = refl
WorkerMove-caller (WorkerMove.requests w) = refl
WorkerMove-caller (WorkerMove.relocks w m) = refl
WorkerMove-caller (WorkerMove.transfers w) = refl
WorkerMove-caller (WorkerMove.unlocks w) = refl
WorkerMove-caller (WorkerMove.sleeps w) = refl

RecorderMove-caller : {s t : RecSystem} → RecorderMove s t → t.caller ≡ s.caller
RecorderMove-caller (RecorderMove.goes_on w p) = refl
RecorderMove-caller (RecorderMove.returns w p) = refl
RecorderMove-caller (RecorderMove.locks w m) = refl
RecorderMove-caller (RecorderMove.is_due w) = refl
RecorderMove-caller (RecorderMove.is_early w) = refl
RecorderMove-caller (RecorderMove.reads w) = refl
RecorderMove-caller (RecorderMove.rewinds w) = refl
RecorderMove-caller (RecorderMove.ends w) = refl
RecorderMove-caller (RecorderMove.hands w) = refl
RecorderMove-caller (RecorderMove.gives_up w) = refl
RecorderMove-caller (RecorderMove.delivers w) = refl
RecorderMove-caller (RecorderMove.relocks w m) = refl
RecorderMove-caller (RecorderMove.unlocks w) = refl
RecorderMove-caller (RecorderMove.sleeps w) = refl
RecorderMove-caller (RecorderMove.announces w) = refl

-- The caller is in one call at most.
abbrev OneCall : Joint → Type 0
OneCall j = (j.play_stage ≡ between) ⊎ (j.rec_stage ≡ between)

step-OneCall : {j k : Joint} → JointStep j k → OneCall j → OneCall k
step-OneCall (player_moves m) one = rw (WorkerMove-caller m) one
step-OneCall (recorder_moves m) one = rw (RecorderMove-caller m) one
step-OneCall (caller_plays idle m) one = inr idle
step-OneCall (caller_records idle m) one = inl idle
step-OneCall (others_lock e) one = one
step-OneCall (others_unlock e) one = one

JointReach-OneCall : {j : Joint} → JointReach j → OneCall j
JointReach-OneCall start = inl refl
JointReach-OneCall (later r st) = step-OneCall st (JointReach-OneCall r)

-- One of the two threads can take a step.
abbrev pub ThreadMoves : Joint → Type 0
ThreadMoves j =
    ((s : System) × WorkerMove (play_view j) s) ⊎ ((s : RecSystem) × RecorderMove (rec_view j) s)

recorder_or_others :
    (j : Joint)
    → RecInv (rec_view j)
    → OneCall j
    → j.play_stage ≡ joining
    → (play_view j).mutex ≡ other_holds
    → (holds_as_recorder j.recorder ≡ true) ⊎ (j.mutex ≡ by_others)
recorder_or_others j v one waits held = ground arith

player_or_others :
    (j : Joint)
    → Inv (play_view j)
    → OneCall j
    → j.rec_stage ≡ joining
    → (rec_view j).mutex ≡ other_holds
    → (holds_as_worker j.player ≡ true) ⊎ (j.mutex ≡ by_others)
player_or_others j v one waits held = ground arith

stop_playout_progress :
    (j : Joint)
    → JointReach j
    → j.play_stage ≡ joining
    → ((j.player ≡ absent) ⊎ (j.player ≡ returned)) ⊎ (ThreadMoves j ⊎ (j.mutex ≡ by_others))
stop_playout_progress j r waits =
    let (p, q) = joint_views r in
    elim (join_progress (play_view j) p waits) [
      | inl gone ↦ inl gone
      | inr (inl move) ↦ inr (inl (inl move))
      | inr (inr held) ↦
          elim (recorder_or_others j (RecReach-RecInv q) (JointReach-OneCall r) waits held) [
            | inl holds ↦ inr (inl (inr (recorder_holder_moves j.recorder (rec_view j) holds refl)))
            | inr others ↦ inr (inr others)
          ]
    ]

stop_recording_progress :
    (j : Joint)
    → JointReach j
    → j.rec_stage ≡ joining
    → ((j.recorder ≡ Recorder.absent) ⊎ (j.recorder ≡ Recorder.returned))
      ⊎ (ThreadMoves j ⊎ (j.mutex ≡ by_others))
stop_recording_progress j r waits =
    let (p, q) = joint_views r in
    elim (rec_join_returns (rec_view j) (rec_view j) 0 q waits now).2 [
      | inl gone ↦ inl gone
      | inr (inl move) ↦ inr (inl (inr move))
      | inr (inr held) ↦ elim (player_or_others j (Reach-Inv p) (JointReach-OneCall r) waits held) [
        | inl holds ↦ inr (inl (inl (worker_holder_moves j.player (play_view j) holds refl)))
        | inr others ↦ inr (inr others)
      ]
    ]

-- The caller waits for a thread in the stop of its side, and that thread is not there to wait for.
abbrev pub WaitsFor : Joint → Thread.Worker → Type 0
WaitsFor j Thread.play_thread = j.play_stage ≡ joining
WaitsFor j Thread.rec_thread = j.rec_stage ≡ joining

abbrev pub IsGone : Joint → Thread.Worker → Type 0
IsGone j Thread.play_thread = (j.player ≡ absent) ⊎ (j.player ≡ returned)
IsGone j Thread.rec_thread = (j.recorder ≡ Recorder.absent) ⊎ (j.recorder ≡ Recorder.returned)

-- While the caller of StopPlayout or StopRecording waits for its thread, in any reachable state
-- of both threads and their caller on one mutex: that thread is absent or has returned, so that
-- the caller goes on, or one of the two threads can take a step, or somebody else holds the
-- mutex. The three do not block one another.
pub joint_join_progress :
    (j : Joint) (thread : Thread.Worker)
    → JointReach j
    → WaitsFor j thread
    → IsGone j thread ⊎ (ThreadMoves j ⊎ (j.mutex ≡ by_others))
joint_join_progress j Thread.play_thread r waits = stop_playout_progress j r waits
joint_join_progress j Thread.rec_thread r waits = stop_recording_progress j r waits
