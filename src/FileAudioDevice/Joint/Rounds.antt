-- ===== src/FileAudioDevice/Joint/Rounds.antt =====
-- A round of each thread as a sequence of its moves, while nobody else is at work.
use mathlib.Core.List.{append-nil}
use mqtgcalls.Prelude.{ℕ, Bytes, Bool, true, false, List, [], ◌∷◌, ◌++◌, ◌≡◌, refl, sym}
use mqtgcalls.Host.{
  Event, lock, unlock, request_playout_data, get_playout_data, set_recorded_buffer,
  deliver_recorded_data, file_read, file_rewind,
}
use mqtgcalls.FileAudioDevice.Interleaving.{Worker, WorkerMove, between}
use mqtgcalls.FileAudioDevice.RecInterleaving.{Recorder, RecorderMove}
use mqtgcalls.FileAudioDevice.Joint.{
  free, by_recorder, Joint, JointStep, player_moves, recorder_moves,
}
use mqtgcalls.FileAudioDevice.Joint.Trace.{
  is_sleep, is_output, is_input, is_ending, AtMostOne, Makes, JointTrace, done, moves,
}

-- A move with no call, and a move with one call.
pub silent :
    {es : List Event} {j k l : Joint} (st : JointStep j k)
    → Makes st []
    → JointTrace es k l
    → JointTrace es j l
silent {es} st m r = moves [] es st m refl r

pub calling :
    {es : List Event} {j k l : Joint} (e : Event) (st : JointStep j k)
    → Makes st (e ∷ [])
    → JointTrace es k l
    → JointTrace (e ∷ es) j l
calling {es} e st m r = moves (e ∷ []) es st m refl r

pub last_move :
    {j k : Joint} (es : List Event) (st : JointStep j k) → Makes st es → JointTrace es j k
last_move es st m = moves es [] st m (sym (append-nil es)) done

-- The calls of a round of playout: `out` is the block that goes out, `slept` the sleep.
abbrev pub play_calls : (playing due : Bool) → ℕ → (out slept : List Event) → List Event
play_calls false due n out slept = []
play_calls true false n out slept = lock ∷ unlock ∷ slept
play_calls true true n out slept =
    lock ∷ unlock ∷ request_playout_data n ∷ lock ∷ get_playout_data ∷ (out ++ unlock ∷ slept)

-- No thread is in a call, and the recording side stands as `j` has it.
abbrev pub player_at : Worker → Joint → Joint
player_at w j = record j { mutex = free; play_stage = between; rec_stage = between; player = w }

pub play_round-JointTrace :
    (j : Joint) (due : Bool) (n : ℕ) (out slept : List Event)
    → j.playing ≡ true
    → AtMostOne is_output out
    → AtMostOne is_sleep slept
    → JointTrace
        (play_calls true due n out slept)
        (player_at Worker.looping j)
        (player_at Worker.looping j)
play_round-JointTrace j false n out slept on o s =
    silent (player_moves (WorkerMove.goes_on refl on)) refl (
      calling lock (player_moves (WorkerMove.locks refl refl)) refl (
        silent (player_moves (WorkerMove.is_early refl)) refl (
          calling unlock (player_moves (WorkerMove.unlocks refl)) refl
            (last_move slept (player_moves (WorkerMove.sleeps refl)) s))))
play_round-JointTrace j true n out slept on o s =
    silent (player_moves (WorkerMove.goes_on refl on)) refl (
      calling lock (player_moves (WorkerMove.locks refl refl)) refl (
        calling unlock (player_moves (WorkerMove.is_due refl)) refl (
          calling (request_playout_data n) (player_moves (WorkerMove.requests refl)) (n, refl)
            (calling lock (player_moves (WorkerMove.relocks refl refl)) refl (
              moves (get_playout_data ∷ out) (unlock ∷ slept)
                (player_moves (WorkerMove.transfers refl)) (out, refl, o) refl
                (calling unlock (player_moves (WorkerMove.unlocks refl)) refl
                  (last_move slept (player_moves (WorkerMove.sleeps refl)) s)))))))

-- What a round of recording comes to: it is not due or paused, it takes a block in and hands it on,
-- it finds the end of the file and rewinds, or it finds the end and returns.
pub data Round : Type 0 where
  early : Round
  block : (input : Event) → Bytes → ℕ → Round
  rewound over : (asked : ℕ) (told : List Event) → Round

abbrev pub delivered : List Event → List Event
delivered slept = unlock ∷ deliver_recorded_data ∷ lock ∷ unlock ∷ slept

abbrev pub record_calls : Round → List Event → List Event
record_calls early slept = lock ∷ unlock ∷ slept
record_calls (block input b n) slept = lock ∷ input ∷ set_recorded_buffer b n ∷ delivered slept
record_calls (rewound n told) slept = lock ∷ file_read n ∷ file_rewind ∷ (told ++ delivered slept)
record_calls (over n told) slept = lock ∷ file_read n ∷ unlock ∷ told

abbrev pub IsRound : Round → Type 0
IsRound early = Unit
IsRound (block input b n) = is_input input ≡ true
IsRound (rewound n told) = AtMostOne is_ending told
IsRound (over n told) = AtMostOne is_ending told

-- The thread returns.
abbrev pub is_over : Round → Bool
is_over (over n told) = true
is_over r = false

abbrev pub recorder_after : Bool → Recorder
recorder_after true = Recorder.returned
recorder_after false = Recorder.looping

abbrev pub recorder_at : Recorder → Joint → Joint
recorder_at w j = record j { mutex = free; play_stage = between; rec_stage = between; recorder = w }

abbrev rec_locked : Joint → Recorder → Joint
rec_locked j w = record j {
  mutex = by_recorder;
  play_stage = between;
  rec_stage = between;
  recorder = w;
}

delivered-JointTrace :
    (j : Joint) (slept : List Event)
    → AtMostOne is_sleep slept
    → JointTrace
        (delivered slept)
        (rec_locked j Recorder.unlocking)
        (recorder_at Recorder.looping j)
delivered-JointTrace j slept s = calling unlock (recorder_moves (RecorderMove.gives_up refl)) refl (
    calling deliver_recorded_data (recorder_moves (RecorderMove.delivers refl)) refl (
      calling lock (recorder_moves (RecorderMove.relocks refl refl)) refl (
        calling unlock (recorder_moves (RecorderMove.unlocks refl)) refl
          (last_move slept (recorder_moves (RecorderMove.sleeps refl)) s))))

pub record_round-JointTrace :
    (j : Joint) (r : Round) (slept : List Event)
    → j.recording ≡ true
    → IsRound r
    → AtMostOne is_sleep slept
    → JointTrace
        (record_calls r slept)
        (recorder_at Recorder.looping j)
        (recorder_at (recorder_after (is_over r)) j)
record_round-JointTrace j early slept on i s =
    silent (recorder_moves (RecorderMove.goes_on refl on)) refl (
      calling lock (recorder_moves (RecorderMove.locks refl refl)) refl (
        silent (recorder_moves (RecorderMove.is_early refl)) refl (
          calling unlock (recorder_moves (RecorderMove.unlocks refl)) refl
            (last_move slept (recorder_moves (RecorderMove.sleeps refl)) s))))
record_round-JointTrace j (block input b n) slept on i s =
    silent (recorder_moves (RecorderMove.goes_on refl on)) refl (
      calling lock (recorder_moves (RecorderMove.locks refl refl)) refl (
        silent (recorder_moves (RecorderMove.is_due refl)) refl (
          calling input (recorder_moves (RecorderMove.reads refl)) i (
            calling (set_recorded_buffer b n) (recorder_moves (RecorderMove.hands refl))
              (b, n, refl) (delivered-JointTrace j slept s)))))
record_round-JointTrace j (rewound n told) slept on i s =
    silent (recorder_moves (RecorderMove.goes_on refl on)) refl (
      calling lock (recorder_moves (RecorderMove.locks refl refl)) refl (
        silent (recorder_moves (RecorderMove.is_due refl)) refl (
          moves (file_read n ∷ file_rewind ∷ told) (delivered slept)
            (recorder_moves (RecorderMove.rewinds refl)) (n, told, refl, i) refl
            (delivered-JointTrace j slept s))))
record_round-JointTrace j (over n told) slept on i s =
    silent (recorder_moves (RecorderMove.goes_on refl on)) refl (
      calling lock (recorder_moves (RecorderMove.locks refl refl)) refl (
        silent (recorder_moves (RecorderMove.is_due refl)) refl (
          moves (file_read n ∷ unlock ∷ []) told (recorder_moves (RecorderMove.ends refl)) (n, refl)
            refl (last_move told (recorder_moves (RecorderMove.announces refl)) i))))
