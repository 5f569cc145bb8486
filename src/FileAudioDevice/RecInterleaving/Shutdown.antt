-- ===== src/FileAudioDevice/RecInterleaving/Shutdown.antt =====
-- The join in StopRecording: the steps that are left to the thread, and what it may wait for.
use mqtgcalls.Prelude.{ℕ, suc, ◌+◌, ◌≤◌, false, ◌≡◌, refl, ◌⊎◌, inl, inr, arith}
use mqtgcalls.FileAudioDevice.Interleaving.{nobody, other_holds, joining}
use mqtgcalls.FileAudioDevice.RecInterleaving.{
  Recorder, absent, looping, locking, testing, reading, handing, unlocking, delivering, relocking,
  finishing, pacing, announcing, returned, RecSystem, RecorderMove, RecOtherMove, other_locks,
  other_unlocks, RecReach,
}
use mqtgcalls.FileAudioDevice.RecInterleaving.Safety.{
  RecInv, RecReach-RecInv, RecorderMove-RecInv, RecOtherMove-RecInv,
}

-- The steps that are left to the thread once `_recording` is false.
abbrev rec_steps_left : Recorder → ℕ
rec_steps_left absent = 0
rec_steps_left returned = 0
rec_steps_left looping = 1
rec_steps_left announcing = 1
rec_steps_left pacing = 2
rec_steps_left finishing = 3
rec_steps_left relocking = 4
rec_steps_left delivering = 5
rec_steps_left unlocking = 6
rec_steps_left handing = 7
rec_steps_left reading = 8
rec_steps_left testing = 9
rec_steps_left locking = 10

-- What may happen while the caller waits: `n` steps of the thread among those of others.
pub data RecWaits (s : RecSystem) : ℕ → RecSystem → Type 0 where
  now : RecWaits s 0 s
  worked : {n : ℕ} {t u : RecSystem} → RecWaits s n t → RecorderMove t u → RecWaits s (suc n) u
  others : {n : ℕ} {t u : RecSystem} → RecWaits s n t → RecOtherMove t u → RecWaits s n u

RecorderMove-steps :
    {s t : RecSystem}
    → RecorderMove s t
    → s.recording ≡ false
    → s.caller ≡ joining
    → (t.recording ≡ false)
      × (t.caller ≡ joining)
      × (suc (rec_steps_left t.worker) ≤ rec_steps_left s.worker)
RecorderMove-steps (RecorderMove.goes_on w p) off c = ground arith
RecorderMove-steps (RecorderMove.returns w p) off c = ground arith
RecorderMove-steps (RecorderMove.locks w m) off c = ground arith
RecorderMove-steps (RecorderMove.is_due w) off c = ground arith
RecorderMove-steps (RecorderMove.is_early w) off c = ground arith
RecorderMove-steps (RecorderMove.reads w) off c = ground arith
RecorderMove-steps (RecorderMove.rewinds w) off c = ground arith
RecorderMove-steps (RecorderMove.ends w) off c = ground arith
RecorderMove-steps (RecorderMove.hands w) off c = ground arith
RecorderMove-steps (RecorderMove.gives_up w) off c = ground arith
RecorderMove-steps (RecorderMove.delivers w) off c = ground arith
RecorderMove-steps (RecorderMove.relocks w m) off c = ground arith
RecorderMove-steps (RecorderMove.unlocks w) off c = ground arith
RecorderMove-steps (RecorderMove.sleeps w) off c = ground arith
RecorderMove-steps (RecorderMove.announces w) off c = ground arith

RecWaits-steps :
    {s t : RecSystem} {n : ℕ}
    → RecWaits s n t
    → s.recording ≡ false
    → s.caller ≡ joining
    → (t.recording ≡ false)
      × (t.caller ≡ joining)
      × (n + rec_steps_left t.worker ≤ rec_steps_left s.worker)
RecWaits-steps now off c = (off, c, omega arith)
RecWaits-steps (worked w m) off c =
    let (off', c', before) = RecWaits-steps w off c in
    let (off'', c'', less) = RecorderMove-steps m off' c' in (off'', c'', omega arith)
RecWaits-steps (others w (other_locks m)) off c = RecWaits-steps w off c
RecWaits-steps (others w (other_unlocks m)) off c = RecWaits-steps w off c

RecWaits-RecInv : {s t : RecSystem} {n : ℕ} → RecWaits s n t → RecInv s → RecInv t
RecWaits-RecInv now v = v
RecWaits-RecInv (worked w m) v = RecorderMove-RecInv m (RecWaits-RecInv w v)
RecWaits-RecInv (others w m) v = RecOtherMove-RecInv m (RecWaits-RecInv w v)

rec_steps_left-le : (w : Recorder) → rec_steps_left w ≤ 10
rec_steps_left-le absent = omega arith
rec_steps_left-le _ = omega arith

rec_joining_off : (s : RecSystem) → RecInv s → s.caller ≡ joining → s.recording ≡ false
rec_joining_off s v c = ground arith

-- The thread is gone or has returned, or it can take a step, or somebody else holds the mutex.
abbrev pub RecProgress : RecSystem → Type 0
RecProgress s =
    ((s.worker ≡ absent) ⊎ (s.worker ≡ returned))
    ⊎ (((t : RecSystem) × RecorderMove s t) ⊎ (s.mutex ≡ other_holds))

rec_free_or_other :
    (s : RecSystem)
    → RecInv s
    → s.caller ≡ joining
    → (s.worker ≡ locking) ⊎ (s.worker ≡ relocking)
    → (s.mutex ≡ nobody) ⊎ (s.mutex ≡ other_holds)
rec_free_or_other s v c w = ground arith

recorder-RecProgress :
    (w : Recorder) (s : RecSystem) → RecInv s → s.caller ≡ joining → s.worker ≡ w → RecProgress s
recorder-RecProgress absent s v c w = inl (inl w)
recorder-RecProgress returned s v c w = inl (inr w)
recorder-RecProgress looping s v c w = inr (inl (_, RecorderMove.returns w (rec_joining_off s v c)))
recorder-RecProgress locking s v c w = elim (rec_free_or_other s v c (inl w)) [
  | inl free ↦ inr (inl (_, RecorderMove.locks w free))
  | inr taken ↦ inr (inr taken)
]
recorder-RecProgress testing s v c w = inr (inl (_, RecorderMove.is_due w))
recorder-RecProgress reading s v c w = inr (inl (_, RecorderMove.reads w))
recorder-RecProgress handing s v c w = inr (inl (_, RecorderMove.hands w))
recorder-RecProgress unlocking s v c w = inr (inl (_, RecorderMove.gives_up w))
recorder-RecProgress delivering s v c w = inr (inl (_, RecorderMove.delivers w))
recorder-RecProgress relocking s v c w = elim (rec_free_or_other s v c (inr w)) [
  | inl free ↦ inr (inl (_, RecorderMove.relocks w free))
  | inr taken ↦ inr (inr taken)
]
recorder-RecProgress finishing s v c w = inr (inl (_, RecorderMove.unlocks w))
recorder-RecProgress pacing s v c w = inr (inl (_, RecorderMove.sleeps w))
recorder-RecProgress announcing s v c w = inr (inl (_, RecorderMove.announces w))

-- While the caller of StopRecording waits for the recording thread, in any reachable state and
-- among any steps of others on the mutex: the thread takes at most 10 more steps, recording stays
-- marked as stopped, and after any number of these steps the thread is absent or has returned, or
-- it can take a step, or somebody else holds the mutex.
pub rec_join_returns :
    (s t : RecSystem) (n : ℕ)
    → RecReach s
    → s.caller ≡ joining
    → RecWaits s n t
    → (n ≤ 10) × (t.recording ≡ false) × RecProgress t
rec_join_returns s t n r c w =
    let v = RecReach-RecInv r in
    let (off, c', few) = RecWaits-steps w (rec_joining_off s v c) c in
    (
      omega (arith, rec_steps_left-le s.worker),
      off,
      recorder-RecProgress t.worker t (RecWaits-RecInv w v) c' refl,
    )
