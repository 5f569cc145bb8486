-- ===== src/FileAudioDevice/Joint/Safety.antt =====
-- The two threads and the caller together, by way of what each side sees of the other.
use mqtgcalls.Prelude.{Bool, true, false, ◌≡◌, ◌⊎◌, inl, inr, arith}
use mqtgcalls.FileAudioDevice.Interleaving.{
  Holder, nobody, worker_holds, other_holds, Worker, transferring, Caller, between, joining, System,
  Reach,
}
use mqtgcalls.FileAudioDevice.Interleaving as Play
use mqtgcalls.FileAudioDevice.Interleaving.Safety.{Reach-Inv, transfer_safe}
use mqtgcalls.FileAudioDevice.RecInterleaving.{reading, handing, RecSystem, RecReach}
use mqtgcalls.FileAudioDevice.RecInterleaving as Rec
use mqtgcalls.FileAudioDevice.RecInterleaving.Safety.{RecReach-RecInv, recording_safe}
use mqtgcalls.FileAudioDevice.Joint.{
  Mutex, free, by_player, by_recorder, by_caller, by_others, Joint, play_view, rec_view, JointStep,
  player_moves, recorder_moves, caller_plays, caller_records, others_lock, others_unlock,
  JointReach, start, later,
}
use mqtgcalls.FileAudioDevice.Joint.Views.{
  Elsewhere, player_view, recorder_view, caller_play_view, caller_rec_view,
}

Reach-Elsewhere :
    (s : System) (h : Holder) → Reach s → Elsewhere s.mutex h → Reach (record s { mutex = h })
Reach-Elsewhere s h r (inl same) = rw same r
Reach-Elsewhere s h r (inr (inl (unheld, taken))) =
    rw taken (Play.later r (Play.by_other (Play.other_locks unheld)))
Reach-Elsewhere s h r (inr (inr (held, given))) =
    rw given (Play.later r (Play.by_other (Play.other_unlocks held)))

RecReach-Elsewhere :
    (s : RecSystem) (h : Holder)
    → RecReach s
    → Elsewhere s.mutex h
    → RecReach (record s { mutex = h })
RecReach-Elsewhere s h r (inl same) = rw same r
RecReach-Elsewhere s h r (inr (inl (unheld, taken))) =
    rw taken (Rec.later r (Rec.by_other (Rec.other_locks unheld)))
RecReach-Elsewhere s h r (inr (inr (held, given))) =
    rw given (Rec.later r (Rec.by_other (Rec.other_unlocks held)))

step-views :
    {j k : Joint}
    → JointStep j k
    → Reach (play_view j)
    → RecReach (rec_view j)
    → Reach (play_view k) × RecReach (rec_view k)
step-views {j} (player_moves m) p r =
    let (own, seen) = player_view j (Reach-Inv p) m in
    (rw own (Play.later p (Play.by_worker m)), RecReach-Elsewhere (rec_view j) _ r seen)
step-views {j} (recorder_moves m) p r =
    let (own, seen) = recorder_view j (RecReach-RecInv r) m in
    (Reach-Elsewhere (play_view j) _ p seen, rw own (Rec.later r (Rec.by_worker m)))
step-views {j} (caller_plays idle m) p r =
    let (own, seen) = caller_play_view j (Reach-Inv p) idle m in
    (rw own (Play.later p (Play.by_caller m)), RecReach-Elsewhere (rec_view j) _ r seen)
step-views {j} (caller_records idle m) p r =
    let (own, seen) = caller_rec_view j (RecReach-RecInv r) idle m in
    (Reach-Elsewhere (play_view j) _ p seen, rw own (Rec.later r (Rec.by_caller m)))
step-views {j} (others_lock unheld) p r = (
  Reach-Elsewhere (play_view j) other_holds p (ground arith),
  RecReach-Elsewhere (rec_view j) other_holds r (ground arith),
)
step-views {j} (others_unlock held) p r = (
  Reach-Elsewhere (play_view j) nobody p (ground arith),
  RecReach-Elsewhere (rec_view j) nobody r (ground arith),
)

pub joint_views : {j : Joint} → JointReach j → Reach (play_view j) × RecReach (rec_view j)
joint_views start = (Play.start, Rec.start)
joint_views (later r st) = let (p, q) = joint_views r in step-views st p q

-- A thread that moves audio, by the name that it holds the mutex under, and its buffer.
abbrev pub MovesAudio : Joint → Mutex → Type 0
MovesAudio j by_player = j.player ≡ transferring
MovesAudio j by_recorder = (j.recorder ≡ reading) ⊎ (j.recorder ≡ handing)
MovesAudio j _ = ⊥

abbrev pub buffer_of : Joint → Mutex → Bool
buffer_of j by_player = j.play_buffer
buffer_of j by_recorder = j.rec_buffer
buffer_of j _ = false

-- In every interleaving of the playout thread, the recording thread, the thread that starts and
-- stops both sides (recording only where it does not run) and others, all on one mutex: while
-- either thread moves audio through its buffer, the buffer is there and that thread holds the
-- mutex, so that the two never do so at once.
pub joint_safe :
    (j : Joint) (who : Mutex)
    → JointReach j
    → MovesAudio j who
    → (j.mutex ≡ who) × (buffer_of j who ≡ true)
joint_safe j by_player r moves =
    let (p, q) = joint_views r in ground (arith, transfer_safe (play_view j) p moves)
joint_safe j by_recorder r moves =
    let (p, q) = joint_views r in ground (arith, recording_safe (rec_view j) q moves)
joint_safe j free r moves = absurd moves
joint_safe j by_caller r moves = absurd moves
joint_safe j by_others r moves = absurd moves
