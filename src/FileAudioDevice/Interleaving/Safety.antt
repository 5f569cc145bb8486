-- ===== src/FileAudioDevice/Interleaving/Safety.antt =====
-- The invariant of PlayThreadProcess beside StartPlayout and StopPlayout.
use mqtgcalls.Prelude.{Bool, true, false, ◌≡◌, ◌⊎◌, arith}
use mqtgcalls.FileAudioDevice.Interleaving.{
  Holder, caller_holds, worker_holds, Worker, absent, testing, transferring, finishing, returned,
  Caller, between, starting, stop_marking, joining, free_locking, freeing, System, WorkerMove,
  goes_on, CallerMove, starts, OtherMove, other_locks, other_unlocks, Step, by_worker, by_caller,
  by_other, Reach, start, later,
}

abbrev pub lives : Worker → Bool
lives absent = false
lives _ = true

abbrev pub holds_as_worker : Worker → Bool
holds_as_worker testing = true
holds_as_worker transferring = true
holds_as_worker finishing = true
holds_as_worker _ = false

abbrev pub holds_as_caller : Caller → Bool
holds_as_caller stop_marking = true
holds_as_caller freeing = true
holds_as_caller _ = false

-- Who holds the mutex.
abbrev pub Held : Holder → Bool → Bool → Type 0
Held worker_holds by_w by_c = (by_w ≡ true) × (by_c ≡ false)
Held caller_holds by_w by_c = (by_w ≡ false) × (by_c ≡ true)
Held _ by_w by_c = (by_w ≡ false) × (by_c ≡ false)

-- What each stage of the caller says of `_playing`, the buffer and the life of the thread.
abbrev pub Staged : Caller → (playing buffer alive : Bool) → Type 0
Staged starting playing buffer alive = (playing ≡ true) × (buffer ≡ true) × (alive ≡ false)
Staged joining playing buffer alive = (playing ≡ false) × (buffer ≡ alive)
Staged free_locking playing buffer alive = (playing ≡ false) × (alive ≡ false)
Staged freeing playing buffer alive = (playing ≡ false) × (alive ≡ false)
Staged _ playing buffer alive = (playing ≡ alive) × (buffer ≡ alive)

-- The thread returns only when it is to stop.
abbrev Returned : Worker → Caller → Type 0
Returned returned joining = Unit
Returned returned _ = ⊥
Returned _ _ = Unit

pub record Inv (s : System) : Type 0 where
  pub held : Held s.mutex (holds_as_worker s.worker) (holds_as_caller s.caller)
  pub staged : Staged s.caller s.playing s.buffer (lives s.worker)
  pub ended : Returned s.worker s.caller

WorkerMove-Inv : {s t : System} → WorkerMove s t → Inv s → Inv t
WorkerMove-Inv (goes_on w p) v = ground arith
WorkerMove-Inv (WorkerMove.returns w p) v = ground arith
WorkerMove-Inv (WorkerMove.locks w m) v = ground arith
WorkerMove-Inv (WorkerMove.is_due w) v = ground arith
WorkerMove-Inv (WorkerMove.is_early w) v = ground arith
WorkerMove-Inv (WorkerMove.requests w) v = ground arith
WorkerMove-Inv (WorkerMove.relocks w m) v = ground arith
WorkerMove-Inv (WorkerMove.transfers w) v = ground arith
WorkerMove-Inv (WorkerMove.unlocks w) v = ground arith
WorkerMove-Inv (WorkerMove.sleeps w) v = ground arith

CallerMove-Inv : {s t : System} → CallerMove s t → Inv s → Inv t
CallerMove-Inv (starts c p) v = ground arith
CallerMove-Inv (CallerMove.launches c) v = ground arith
CallerMove-Inv (CallerMove.fails c) v = ground arith
CallerMove-Inv (CallerMove.stops c) v = ground arith
CallerMove-Inv (CallerMove.stop_locks c m) v = ground arith
CallerMove-Inv (CallerMove.marks c) v = ground arith
CallerMove-Inv (CallerMove.joins c w) v = ground arith
CallerMove-Inv (CallerMove.joins_none c w) v = ground arith
CallerMove-Inv (CallerMove.free_locks c m) v = ground arith
CallerMove-Inv (CallerMove.frees c) v = ground arith

OtherMove-Inv : {s t : System} → OtherMove s t → Inv s → Inv t
OtherMove-Inv (other_locks m) v = ground arith
OtherMove-Inv (other_unlocks m) v = ground arith

pub Step-Inv : {s t : System} → Step s t → Inv s → Inv t
Step-Inv (by_worker m) v = WorkerMove-Inv m v
Step-Inv (by_caller m) v = CallerMove-Inv m v
Step-Inv (by_other m) v = OtherMove-Inv m v

pub Reach-Inv : {s : System} → Reach s → Inv s
Reach-Inv start = ground arith
Reach-Inv (later r st) = Step-Inv st (Reach-Inv r)

-- In every interleaving of the playout thread, the thread that starts and stops playout and
-- others who take the mutex: while the playout thread transfers audio through the playout buffer,
-- the buffer is there and the playout thread holds the mutex.
pub transfer_safe :
    (s : System) → Reach s → s.worker ≡ transferring → (s.buffer ≡ true) × (s.mutex ≡ worker_holds)
transfer_safe s r w = ground (arith, Reach-Inv r)

pub mutual_exclusion :
    (s : System) → Reach s → (holds_as_worker s.worker ≡ false) ⊎ (holds_as_caller s.caller ≡ false)
mutual_exclusion s r = ground (arith, Reach-Inv r)

-- In every interleaving, between two calls of the thread that starts and stops playout, there is
-- a playout thread exactly if the device is marked as playing, and a buffer exactly then.
pub between_calls :
    (s : System)
    → Reach s
    → s.caller ≡ between
    → (lives s.worker ≡ s.playing) × (s.buffer ≡ s.playing)
between_calls s r c = ground (arith, Reach-Inv r)
