-- ===== src/RawAudioDevice/Relay.antt =====
-- What passes between the transport and the Python callbacks.
use mathlib.Core.List.{append-nil}
use mqtgcalls.Prelude.{
  ℕ, Bytes, true, false, List, [], ◌∷◌, ◌++◌, ◌≡◌, refl, some, arith, length, overlay, leb,
  take_all, overlay_full, if◌then◌else◌,
}
use mqtgcalls.Host.Playback.{captured, captured-append, relayed, relayed-append, overread_free}
use mqtgcalls.FileAudioDevice.Threads.{is_due}
use mqtgcalls.RawAudioDevice.Defs.{RawAudioDevice, playout_buffer_size, recording_buffer_size}
use mqtgcalls.RawAudioDevice.Threads.{
  Tick, play_thread_process, play_thread_func, rec_thread_process, rec_thread_func,
}

-- Rounds that are due, and in which the transport and the callback give whole blocks.
abbrev pub PlaysBlocks : ℕ → List Tick → Type 0
PlaysBlocks last [] = Unit
PlaysBlocks last (t ∷ ts) =
    (is_due last t.now ≡ true) × (length t.samples ≡ playout_buffer_size) × PlaysBlocks t.now ts

-- The audio of the rounds in which recording was not paused.
abbrev pub heard : List Tick → Bytes
heard [] = []
heard (t ∷ ts) = (if t.answers.is_recording_paused then [] else t.samples) ++ heard ts

-- The audio that the callback gave in the rounds in which playout was not paused.
abbrev pub spoken : List Tick → Bytes
spoken [] = []
spoken (t ∷ ts) = (if t.answers.is_playout_paused then [] else t.answers.played) ++ spoken ts

-- Rounds as they come for the microphone: a round that is due, or one after a pause.
abbrev pub GivesBlocks : ℕ → List Tick → Type 0
GivesBlocks last [] = Unit
GivesBlocks last (t ∷ ts) =
    (is_due last t.now ≡ true)
    × (length t.answers.played ≡ recording_buffer_size)
    × GivesBlocks (if t.answers.is_playout_paused then last else t.now) ts

pub record IsPlaying (d : RawAudioDevice) : Type 0 where
  pub playing : d.playing ≡ true
  pub has_buffer : (b : Bytes) × (d.playout_buffer ≡ some b) × (length b ≡ playout_buffer_size)

module _ (t : Tick) (d : RawAudioDevice) (r : IsPlaying d)
    (due : is_due d.last_call_playout_millis t.now ≡ true)
    (full : length t.samples ≡ playout_buffer_size) where
  buffer_after : overlay t.samples r.has_buffer.0 ≡ t.samples
  buffer_after = overlay_full t.samples r.has_buffer.0 (omega (arith, r.has_buffer.2, full))

  play_round :
      ((play_thread_process t d).0 ≡ true)
      × ((play_thread_process t d).1.playing ≡ true)
      × ((play_thread_process t d).1.playout_buffer ≡ some t.samples)
      × ((play_thread_process t d).1.last_call_playout_millis ≡ t.now)
      × (relayed (play_thread_process t d).2
          ≡ (if t.answers.is_recording_paused then [] else t.samples))
  unfolding play_thread_process relayed
  play_round = ground (
    arith,
    buffer_after,
    r.playing,
    r.has_buffer,
    take_all playout_buffer_size t.samples,
    append-nil t.samples,
  )

play_func_continues :
    (t : Tick) (ts : List Tick) (d : RawAudioDevice)
    → (play_thread_process t d).0 ≡ true
    → let later = play_thread_func ts (play_thread_process t d).1 in
      play_thread_func (t ∷ ts) d ≡ (later.0, later.1, (play_thread_process t d).2 ++ later.2)
unfolding play_thread_func
play_func_continues t ts d e = ground arith

-- The playout thread of a raw device goes on, and hands to the callback exactly the audio of the
-- rounds in which recording was not paused, in order. The device plays, with a playout buffer of
-- 1920 bytes; every round is due, and in it the transport gives 1920 bytes.
pub play_thread_func-relays :
    (ts : List Tick) (d : RawAudioDevice)
    → IsPlaying d
    → PlaysBlocks d.last_call_playout_millis ts
    → ((play_thread_func ts d).0 ≡ true) × (relayed (play_thread_func ts d).2 ≡ heard ts)
play_thread_func-relays [] d r p = unfold play_thread_func relayed in (refl, refl)
play_thread_func-relays (t ∷ ts) d r p =
    let (on, playing, buffer, last, audio) = play_round t d r p.0 p.1 in
    let (still, rest) =
      play_thread_func-relays ts (play_thread_process t d).1
        (record { playing = playing; has_buffer = (t.samples, buffer, p.1) }) (rw last p.2) in
    rw (play_func_continues t ts d on)
      (still, rw (relayed-append (play_thread_process t d).2 _, audio, rest))

module _ (t : Tick) (d : RawAudioDevice) (on : d.recording ≡ true)
    (frames : d.recording_frames_in_10ms ≡ 480) where
  -- In a due round that is not paused, of a raw device that records with 480 frames for 10 ms,
  -- the transport reads no byte past the end of what the callback gave exactly if that is at
  -- least 1920 bytes: the length of the answer is not checked.
  pub rec_round-overread_free :
      is_due d.last_call_record_millis t.now ≡ true
      → t.answers.is_playout_paused ≡ false
      → overread_free (rec_thread_process t d).2
        ≡ leb recording_buffer_size (length t.answers.played)
  unfolding rec_thread_process overread_free
  rec_round-overread_free due runs = ground arith

  rec_round :
      is_due d.last_call_record_millis t.now ≡ true
      → length t.answers.played ≡ recording_buffer_size
      → ((rec_thread_process t d).0 ≡ true)
        × ((rec_thread_process t d).1.recording ≡ true)
        × ((rec_thread_process t d).1.recording_frames_in_10ms ≡ 480)
        × ((rec_thread_process t d).1.last_call_record_millis
            ≡ (if t.answers.is_playout_paused then d.last_call_record_millis else t.now))
        × (captured (rec_thread_process t d).2
            ≡ (if t.answers.is_playout_paused then [] else t.answers.played))
  unfolding rec_thread_process captured
  rec_round due full =
      ground (arith, take_all recording_buffer_size t.answers.played, append-nil t.answers.played)

pub rec_func_continues :
    (t : Tick) (ts : List Tick) (d : RawAudioDevice)
    → (rec_thread_process t d).0 ≡ true
    → let later = rec_thread_func ts (rec_thread_process t d).1 in
      rec_thread_func (t ∷ ts) d ≡ (later.0, later.1, (rec_thread_process t d).2 ++ later.2)
unfolding rec_thread_func
rec_func_continues t ts d e = ground arith

-- The recording thread of a raw device goes on, and the audio that the transport reads is exactly
-- what the callback gave in the rounds in which playout was not paused, in order. The device
-- records with 480 frames for 10 ms; every round is due, and in it the callback has 1920 bytes.
pub rec_thread_func-captures :
    (ts : List Tick) (d : RawAudioDevice)
    → d.recording ≡ true
    → d.recording_frames_in_10ms ≡ 480
    → GivesBlocks d.last_call_record_millis ts
    → ((rec_thread_func ts d).0 ≡ true) × (captured (rec_thread_func ts d).2 ≡ spoken ts)
rec_thread_func-captures [] d on frames p = unfold rec_thread_func captured in (refl, refl)
rec_thread_func-captures (t ∷ ts) d on frames p =
    let (go_on, on', frames', last, audio) = rec_round t d on frames p.0 p.1 in
    let (still, rest) =
      rec_thread_func-captures ts (rec_thread_process t d).1 on' frames' (rw last p.2) in
    rw (rec_func_continues t ts d go_on)
      (still, rw (captured-append (rec_thread_process t d).2 _, audio, rest))
