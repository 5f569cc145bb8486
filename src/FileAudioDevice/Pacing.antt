-- ===== src/FileAudioDevice/Pacing.antt =====
-- The timing of PlayThreadProcess and RecThreadProcess: what a round sleeps, and which rounds are
-- due on a clock that `SleepMs` keeps.
use mqtgcalls.Prelude.{◌+◌, ◌-◌, ◌≤◌, true, List, [], ◌∷◌, ◌++◌, ◌≡◌, refl, arith, length}
use mqtgcalls.Host.Files.{FileApi}
use mqtgcalls.Host.Playback.{slept, requests, requests-append}
use mqtgcalls.FileAudioDevice.Defs.{FileAudioDevice}
use mqtgcalls.FileAudioDevice.Threads.{
  Tick, is_due, play_thread_process, play_thread_func, rec_thread_process, record_block, end_round,
}

module _ {File : Type 0} (api : FileApi File) where
  play_slept :
      (t : Tick) (d : FileAudioDevice File)
      → d.playing ≡ true
      → slept (play_thread_process api t d).2 ≡ t.now + 10 - t.later
  unfolding play_thread_process slept
  play_slept t d on = ground arith

  record_block-slept :
      (t : Tick) (d : FileAudioDevice File)
      → (record_block api t d).0 ≡ true
      → slept (record_block api t d).2 ≡ t.now + 10 - t.later
  unfolding record_block slept
  record_block-slept t d go_on = ground arith

  -- A round of the recording thread of a file device after which the thread goes on sleeps for
  -- what is left, at its end, of the 10 ms after its start, and not at all if these are over.
  pub rec_slept :
      (t : Tick) (d : FileAudioDevice File)
      → (rec_thread_process api t d).0 ≡ true
      → slept (rec_thread_process api t d).2 ≡ t.now + 10 - t.later
  unfolding rec_thread_process end_round slept
  rec_slept t d go_on = ground (arith, record_block-slept t d)

  -- `SleepMs` sleeps for as long as it is told, at least: the next round starts after that.
  abbrev pub OnClock : FileAudioDevice File → List Tick → Type 0
  OnClock d [] = Unit
  OnClock d (t ∷ []) = Unit
  OnClock d (t ∷ t' ∷ ts) =
      (t.later + slept (play_thread_process api t d).2 ≤ t'.now)
      × OnClock (play_thread_process api t d).1 (t' ∷ ts)

  play_continues :
      (t : Tick) (d : FileAudioDevice File)
      → d.playing ≡ true
      → ((play_thread_process api t d).0 ≡ true) × ((play_thread_process api t d).1.playing ≡ true)
  unfolding play_thread_process
  play_continues t d on = ground arith

  play_due :
      (t : Tick) (d : FileAudioDevice File)
      → d.playing ≡ true
      → is_due d.last_call_playout_millis t.now ≡ true
      → ((play_thread_process api t d).1.last_call_playout_millis ≡ t.now)
        × (requests (play_thread_process api t d).2 ≡ 1)
  unfolding play_thread_process requests
  play_due t d on due = ground arith

  abbrev pub FirstIsDue : FileAudioDevice File → List Tick → Type 0
  FirstIsDue d [] = Unit
  FirstIsDue d (t ∷ ts) = is_due d.last_call_playout_millis t.now ≡ true

  next_is_due :
      (t : Tick) (ts : List Tick) (d : FileAudioDevice File)
      → d.playing ≡ true
      → is_due d.last_call_playout_millis t.now ≡ true
      → OnClock d (t ∷ ts)
      → FirstIsDue (play_thread_process api t d).1 ts
  next_is_due t [] d on due clock = tt
  next_is_due t (t' ∷ ts) d on due clock =
      rw (play_due t d on due).0 (ground (arith, play_slept t d on))

  rest-OnClock :
      (t : Tick) (ts : List Tick) (d : FileAudioDevice File)
      → OnClock d (t ∷ ts)
      → OnClock (play_thread_process api t d).1 ts
  rest-OnClock t [] d clock = tt
  rest-OnClock t (t' ∷ ts) d clock = clock.1

  play_func_continues :
      (t : Tick) (ts : List Tick) (d : FileAudioDevice File)
      → d.playing ≡ true
      → (play_thread_func api (t ∷ ts) d).2
        ≡ (play_thread_process api t d).2
          ++ (play_thread_func api ts (play_thread_process api t d).1).2
  unfolding play_thread_func
  play_func_continues t ts d on = ground (arith, play_continues t d on)

  -- The playout thread asks the transport for audio once in each round: no round is skipped. The
  -- device plays, the first round is due, and each next round starts no earlier than the end of
  -- the one before it and the time that it slept.
  pub play_thread_func-requests :
      (ts : List Tick) (d : FileAudioDevice File)
      → d.playing ≡ true
      → FirstIsDue d ts
      → OnClock d ts
      → requests (play_thread_func api ts d).2 ≡ length ts
  unfolding requests
  play_thread_func-requests [] d on due clock = unfold play_thread_func in refl
  play_thread_func-requests (t ∷ ts) d on due clock =
      rw
        (
          play_func_continues t ts d on,
          requests-append (play_thread_process api t d).2 _,
          (play_due t d on due).1,
        )
        (omega (
          arith,
          play_thread_func-requests ts (play_thread_process api t d).1 (play_continues t d on).1
              (next_is_due t ts d on due clock) (rest-OnClock t ts d clock),
        ))
