-- ===== src/FileAudioDevice/Joint/Views.antt =====
-- What one side makes of a move of the other: nothing, or a move of somebody else on the mutex.
use mqtgcalls.Prelude.{◌≡◌, ◌⊎◌, arith}
use mqtgcalls.FileAudioDevice.Interleaving.{
  Holder, nobody, other_holds, between, System, WorkerMove, CallerMove,
}
use mqtgcalls.FileAudioDevice.Interleaving.Safety.{Inv}
use mqtgcalls.FileAudioDevice.RecInterleaving.{RecSystem, RecorderMove, RecCallerMove}
use mqtgcalls.FileAudioDevice.RecInterleaving.Safety.{RecInv}
use mqtgcalls.FileAudioDevice.Joint.{Joint, play_view, rec_view, put_play, put_rec}

-- How the mutex may look after a move of somebody else.
abbrev pub Elsewhere : Holder → Holder → Type 0
Elsewhere before after =
    (after ≡ before)
    ⊎ (((before ≡ nobody) × (after ≡ other_holds)) ⊎ ((before ≡ other_holds) × (after ≡ nobody)))

-- The view of the side that moves is what the move makes of it, and the other side sees a move of
-- somebody else.
pub player_view :
    (j : Joint) {s : System}
    → Inv (play_view j)
    → WorkerMove (play_view j) s
    → (play_view (put_play s j) ≡ s) × Elsewhere (rec_view j).mutex (rec_view (put_play s j)).mutex
player_view j v (WorkerMove.goes_on w p) = ground arith
player_view j v (WorkerMove.returns w p) = ground arith
player_view j v (WorkerMove.locks w m) = ground arith
player_view j v (WorkerMove.is_due w) = ground arith
player_view j v (WorkerMove.is_early w) = ground arith
player_view j v (WorkerMove.requests w) = ground arith
player_view j v (WorkerMove.relocks w m) = ground arith
player_view j v (WorkerMove.transfers w) = ground arith
player_view j v (WorkerMove.unlocks w) = ground arith
player_view j v (WorkerMove.sleeps w) = ground arith

pub recorder_view :
    (j : Joint) {s : RecSystem}
    → RecInv (rec_view j)
    → RecorderMove (rec_view j) s
    → (rec_view (put_rec s j) ≡ s) × Elsewhere (play_view j).mutex (play_view (put_rec s j)).mutex
recorder_view j v (RecorderMove.goes_on w p) = ground arith
recorder_view j v (RecorderMove.returns w p) = ground arith
recorder_view j v (RecorderMove.locks w m) = ground arith
recorder_view j v (RecorderMove.is_due w) = ground arith
recorder_view j v (RecorderMove.is_early w) = ground arith
recorder_view j v (RecorderMove.reads w) = ground arith
recorder_view j v (RecorderMove.rewinds w) = ground arith
recorder_view j v (RecorderMove.ends w) = ground arith
recorder_view j v (RecorderMove.hands w) = ground arith
recorder_view j v (RecorderMove.gives_up w) = ground arith
recorder_view j v (RecorderMove.delivers w) = ground arith
recorder_view j v (RecorderMove.relocks w m) = ground arith
recorder_view j v (RecorderMove.unlocks w) = ground arith
recorder_view j v (RecorderMove.sleeps w) = ground arith
recorder_view j v (RecorderMove.announces w) = ground arith

pub caller_play_view :
    (j : Joint) {s : System}
    → Inv (play_view j)
    → j.rec_stage ≡ between
    → CallerMove (play_view j) s
    → (play_view (put_play s j) ≡ s) × Elsewhere (rec_view j).mutex (rec_view (put_play s j)).mutex
caller_play_view j v idle (CallerMove.starts c p) = ground arith
caller_play_view j v idle (CallerMove.launches c) = ground arith
caller_play_view j v idle (CallerMove.fails c) = ground arith
caller_play_view j v idle (CallerMove.stops c) = ground arith
caller_play_view j v idle (CallerMove.stop_locks c m) = ground arith
caller_play_view j v idle (CallerMove.marks c) = ground arith
caller_play_view j v idle (CallerMove.joins c w) = ground arith
caller_play_view j v idle (CallerMove.joins_none c w) = ground arith
caller_play_view j v idle (CallerMove.free_locks c m) = ground arith
caller_play_view j v idle (CallerMove.frees c) = ground arith

pub caller_rec_view :
    (j : Joint) {s : RecSystem}
    → RecInv (rec_view j)
    → j.play_stage ≡ between
    → RecCallerMove (rec_view j) s
    → (rec_view (put_rec s j) ≡ s) × Elsewhere (play_view j).mutex (play_view (put_rec s j)).mutex
caller_rec_view j v idle (RecCallerMove.starts c p) = ground arith
caller_rec_view j v idle (RecCallerMove.launches c) = ground arith
caller_rec_view j v idle (RecCallerMove.fails c) = ground arith
caller_rec_view j v idle (RecCallerMove.stops c) = ground arith
caller_rec_view j v idle (RecCallerMove.stop_locks c m) = ground arith
caller_rec_view j v idle (RecCallerMove.marks c) = ground arith
caller_rec_view j v idle (RecCallerMove.joins c w) = ground arith
caller_rec_view j v idle (RecCallerMove.joins_none c w) = ground arith
caller_rec_view j v idle (RecCallerMove.free_locks c m) = ground arith
caller_rec_view j v idle (RecCallerMove.frees c) = ground arith
