-- ===== src/FileAudioDevice/Interleaving/Shutdown.antt =====
-- The join in StopPlayout: the steps that are left to the thread, and what it may wait for.
use mqtgcalls.Prelude.{ℕ, suc, ◌+◌, ◌≤◌, false, ◌≡◌, refl, ◌⊎◌, inl, inr, arith}
use mqtgcalls.FileAudioDevice.Interleaving.{
  nobody, other_holds, Worker, absent, looping, locking, testing, requesting, relocking,
  transferring, finishing, pacing, returned, joining, System, WorkerMove, OtherMove, other_locks,
  other_unlocks, goes_on, Reach,
}
use mqtgcalls.FileAudioDevice.Interleaving.Safety.{Inv, Reach-Inv}

-- The steps that are left to the thread once `_playing` is false.
abbrev pub steps_left : Worker → ℕ
steps_left absent = 0
steps_left returned = 0
steps_left looping = 1
steps_left pacing = 2
steps_left finishing = 3
steps_left transferring = 4
steps_left relocking = 5
steps_left requesting = 6
steps_left testing = 7
steps_left locking = 8

-- What may happen while the caller waits: `n` steps of the thread among those of others.
pub data Waits (s : System) : ℕ → System → Type 0 where
  now : Waits s 0 s
  worked : {n : ℕ} {t u : System} → Waits s n t → WorkerMove t u → Waits s (suc n) u
  others : {n : ℕ} {t u : System} → Waits s n t → OtherMove t u → Waits s n u

WorkerMove-steps :
    {s t : System}
    → WorkerMove s t
    → s.playing ≡ false
    → (t.playing ≡ false) × (suc (steps_left t.worker) ≤ steps_left s.worker)
WorkerMove-steps (goes_on w p) off = ground arith
WorkerMove-steps (WorkerMove.returns w p) off = ground arith
WorkerMove-steps (WorkerMove.locks w m) off = ground arith
WorkerMove-steps (WorkerMove.is_due w) off = ground arith
WorkerMove-steps (WorkerMove.is_early w) off = ground arith
WorkerMove-steps (WorkerMove.requests w) off = ground arith
WorkerMove-steps (WorkerMove.relocks w m) off = ground arith
WorkerMove-steps (WorkerMove.transfers w) off = ground arith
WorkerMove-steps (WorkerMove.unlocks w) off = ground arith
WorkerMove-steps (WorkerMove.sleeps w) off = ground arith

Waits-steps :
    {s t : System} {n : ℕ}
    → Waits s n t
    → s.playing ≡ false
    → (t.playing ≡ false) × (n + steps_left t.worker ≤ steps_left s.worker)
Waits-steps now off = (off, omega arith)
Waits-steps (worked w m) off =
    let (off', before) = Waits-steps w off in
    let (off'', less) = WorkerMove-steps m off' in (off'', omega arith)
Waits-steps (others w (other_locks m)) off = Waits-steps w off
Waits-steps (others w (other_unlocks m)) off = Waits-steps w off

steps_left-le : (w : Worker) → steps_left w ≤ 8
steps_left-le absent = omega arith
steps_left-le _ = omega arith

joining_off : (s : System) → Reach s → s.caller ≡ joining → s.playing ≡ false
joining_off s r c = ground (arith, Reach-Inv r)

-- While the caller of StopPlayout waits for the playout thread, in any reachable state and among
-- any steps of others on the mutex, the thread takes at most 8 more steps, and playout stays
-- marked as stopped.
pub join_bounded :
    (s t : System) (n : ℕ)
    → Reach s
    → s.caller ≡ joining
    → Waits s n t
    → (n ≤ 8) × (t.playing ≡ false)
join_bounded s t n r c w =
    let (off, few) = Waits-steps w (joining_off s r c) in
    (omega (arith, steps_left-le s.worker), off)

abbrev Progress : System → Type 0
Progress s =
    ((s.worker ≡ absent) ⊎ (s.worker ≡ returned))
    ⊎ (((t : System) × WorkerMove s t) ⊎ (s.mutex ≡ other_holds))

-- Nobody but another holds the mutex when the thread wants it and the caller joins.
free_or_other :
    (s : System)
    → Inv s
    → s.caller ≡ joining
    → (s.worker ≡ locking) ⊎ (s.worker ≡ relocking)
    → (s.mutex ≡ nobody) ⊎ (s.mutex ≡ other_holds)
free_or_other s v c w = ground arith

worker-Progress : (w : Worker) (s : System) → Inv s → s.caller ≡ joining → s.worker ≡ w → Progress s
worker-Progress absent s v c w = inl (inl w)
worker-Progress returned s v c w = inl (inr w)
worker-Progress looping s v c w = inr (inl (_, WorkerMove.returns w (ground arith)))
worker-Progress locking s v c w = elim (free_or_other s v c (inl w)) [
  | inl free ↦ inr (inl (_, WorkerMove.locks w free))
  | inr taken ↦ inr (inr taken)
]
worker-Progress testing s v c w = inr (inl (_, WorkerMove.is_due w))
worker-Progress requesting s v c w = inr (inl (_, WorkerMove.requests w))
worker-Progress relocking s v c w = elim (free_or_other s v c (inr w)) [
  | inl free ↦ inr (inl (_, WorkerMove.relocks w free))
  | inr taken ↦ inr (inr taken)
]
worker-Progress transferring s v c w = inr (inl (_, WorkerMove.transfers w))
worker-Progress finishing s v c w = inr (inl (_, WorkerMove.unlocks w))
worker-Progress pacing s v c w = inr (inl (_, WorkerMove.sleeps w))

-- While the caller of StopPlayout waits for the playout thread, in any reachable state, the
-- thread is absent or has returned, so that the caller goes on, or it can take a step, or
-- somebody else holds the mutex: the two do not block one another.
pub join_progress :
    (s : System)
    → Reach s
    → s.caller ≡ joining
    → ((s.worker ≡ absent) ⊎ (s.worker ≡ returned))
      ⊎ (((t : System) × WorkerMove s t) ⊎ (s.mutex ≡ other_holds))
join_progress s r c = worker-Progress s.worker s (Reach-Inv r) c refl
