-- ===== src/FileAudioDevice/Joint/Starts.antt =====
-- A start and a stop of each side as sequences of moves: of the caller, and of the thread that a stop
-- waits for.
use mqtgcalls.Prelude.{Bool, true, false, List, [], ◌∷◌, ◌++◌, ◌≡◌, refl}
use mqtgcalls.Host.{
  play_thread, rec_thread, Event, lock, unlock, start_thread, stop_thread, delete_buffer,
}
use mqtgcalls.FileAudioDevice.Interleaving.{
  Worker, WorkerMove, Caller, CallerMove, between, joining,
}
use mqtgcalls.FileAudioDevice.RecInterleaving.{Recorder, RecorderMove, RecCallerMove}
use mqtgcalls.FileAudioDevice.Joint.{
  Mutex, free, Joint, player_moves, recorder_moves, caller_plays, caller_records, others_lock,
  others_unlock,
}
use mqtgcalls.FileAudioDevice.Joint.Trace.{
  is_new_buffer, is_delete_buffer, is_opening, is_closing, One, is_setting, if_so, AtMostOne,
  JointTrace, moves, sets,
}
use mqtgcalls.FileAudioDevice.Joint.Rounds.{silent, calling, last_move}

abbrev pub at_rest : Joint → Joint
at_rest j = record j { mutex = free; play_stage = between; rec_stage = between }

-- The opening of a file: there may be none to open if the start succeeds.
abbrev pub OpeningCalls : Bool → List Event → Type 0
OpeningCalls true es = AtMostOne is_opening es
OpeningCalls false es = One is_opening es

abbrev pub play_end : Bool → Event
play_end true = start_thread play_thread
play_end false = delete_buffer play_thread

abbrev pub play_started : Bool → Joint → Joint
play_started true j = record (at_rest j) {
  playing = true;
  play_buffer = true;
  player = Worker.looping;
}
play_started false j = record (at_rest j) { playing = false; play_buffer = false }

pub start_play-JointTrace :
    (j : Joint) (ok : Bool) (allocated opening : List Event)
    → j.playing ≡ false
    → AtMostOne (is_new_buffer play_thread) allocated
    → OpeningCalls ok opening
    → JointTrace (allocated ++ (opening ++ (play_end ok ∷ []))) (at_rest j) (play_started ok j)
start_play-JointTrace j true allocated opening off a o =
    moves allocated (opening ++ (start_thread play_thread ∷ []))
      (caller_plays refl (CallerMove.starts refl off)) a refl
      (last_move (opening ++ (start_thread play_thread ∷ []))
        (caller_plays refl (CallerMove.launches refl)) (opening, refl, o))
start_play-JointTrace j false allocated opening off a o =
    moves allocated (opening ++ (delete_buffer play_thread ∷ []))
      (caller_plays refl (CallerMove.starts refl off)) a refl
      (last_move (opening ++ (delete_buffer play_thread ∷ []))
        (caller_plays refl (CallerMove.fails refl)) (opening, refl, o))

-- A playout thread is at the head of its loop between two rounds.
abbrev pub player_standing : Bool → Worker
player_standing true = Worker.looping
player_standing false = Worker.absent

abbrev pub stop_calls : (there : Bool) → Event → (freed closing : List Event) → List Event
stop_calls there join freed closing =
    lock ∷ unlock ∷ (if_so there join ++ (lock ∷ (freed ++ (closing ++ (unlock ∷ [])))))

abbrev pub play_stopped : Joint → Joint
play_stopped j = record (at_rest j) { playing = false; play_buffer = false; player = Worker.absent }

pub stop_play-JointTrace :
    (j : Joint) (there : Bool) (freed closing : List Event)
    → AtMostOne (is_delete_buffer play_thread) freed
    → AtMostOne is_closing closing
    → JointTrace
        (stop_calls there (stop_thread play_thread) freed closing)
        (record (at_rest j) { player = player_standing there })
        (play_stopped j)
stop_play-JointTrace j there freed closing f c =
    silent (caller_plays refl (CallerMove.stops refl)) refl (
      calling lock (caller_plays refl (CallerMove.stop_locks refl refl)) refl
        (calling unlock (caller_plays refl (CallerMove.marks refl)) refl (waits there)))
  where
    frees :
        JointTrace
          (lock ∷ (freed ++ (closing ++ (unlock ∷ []))))
          (record (at_rest j) {
            playing = false;
            player = Worker.absent;
            play_stage = Caller.free_locking;
          })
          (play_stopped j)
    frees = calling lock (caller_plays refl (CallerMove.free_locks refl refl)) refl (
        last_move (freed ++ (closing ++ (unlock ∷ []))) (caller_plays refl (CallerMove.frees refl))
          (freed, closing, refl, f, c))

    waits :
        (b : Bool)
        → JointTrace
            (if_so b (stop_thread play_thread) ++ (lock ∷ (freed ++ (closing ++ (unlock ∷ [])))))
            (record (at_rest j) {
              playing = false;
              player = player_standing b;
              play_stage = joining;
            })
            (play_stopped j)
    waits true = silent (player_moves (WorkerMove.returns refl refl)) refl (
        calling (stop_thread play_thread) (caller_plays refl (CallerMove.joins refl refl)) refl
          frees)
    waits false = silent (caller_plays refl (CallerMove.joins_none refl refl)) refl frees

abbrev pub rec_end : Bool → Event
rec_end true = start_thread rec_thread
rec_end false = delete_buffer rec_thread

abbrev pub rec_started : Bool → Joint → Joint
rec_started true j = record (at_rest j) {
  recording = true;
  rec_buffer = true;
  recorder = Recorder.looping;
}
rec_started false j = record (at_rest j) { recording = false; rec_buffer = false }

pub start_rec-JointTrace :
    (j : Joint) (ok : Bool) (allocated opening : List Event)
    → j.recording ≡ false
    → AtMostOne (is_new_buffer rec_thread) allocated
    → OpeningCalls ok opening
    → JointTrace (allocated ++ (opening ++ (rec_end ok ∷ []))) (at_rest j) (rec_started ok j)
start_rec-JointTrace j true allocated opening off a o =
    moves allocated (opening ++ (start_thread rec_thread ∷ []))
      (caller_records refl (RecCallerMove.starts refl off)) a refl
      (last_move (opening ++ (start_thread rec_thread ∷ []))
        (caller_records refl (RecCallerMove.launches refl)) (opening, refl, o))
start_rec-JointTrace j false allocated opening off a o =
    moves allocated (opening ++ (delete_buffer rec_thread ∷ []))
      (caller_records refl (RecCallerMove.starts refl off)) a refl
      (last_move (opening ++ (delete_buffer rec_thread ∷ []))
        (caller_records refl (RecCallerMove.fails refl)) (opening, refl, o))

-- A recording thread may have returned before it is joined.
abbrev pub recorder_standing : (there gone : Bool) → Recorder
recorder_standing true true = Recorder.returned
recorder_standing true false = Recorder.looping
recorder_standing false gone = Recorder.absent

abbrev pub rec_stopped : Joint → Joint
rec_stopped j = record (at_rest j) {
  recording = false;
  rec_buffer = false;
  recorder = Recorder.absent;
}

pub stop_rec-JointTrace :
    (j : Joint) (there gone : Bool) (freed closing : List Event)
    → AtMostOne (is_delete_buffer rec_thread) freed
    → AtMostOne is_closing closing
    → JointTrace
        (stop_calls there (stop_thread rec_thread) freed closing)
        (record (at_rest j) { recorder = recorder_standing there gone })
        (rec_stopped j)
stop_rec-JointTrace j there gone freed closing f c =
    silent (caller_records refl (RecCallerMove.stops refl)) refl (
      calling lock (caller_records refl (RecCallerMove.stop_locks refl refl)) refl
        (calling unlock (caller_records refl (RecCallerMove.marks refl)) refl (waits there gone)))
  where
    frees :
        JointTrace
          (lock ∷ (freed ++ (closing ++ (unlock ∷ []))))
          (record (at_rest j) {
            recording = false;
            recorder = Recorder.absent;
            rec_stage = Caller.free_locking;
          })
          (rec_stopped j)
    frees = calling lock (caller_records refl (RecCallerMove.free_locks refl refl)) refl (
        last_move (freed ++ (closing ++ (unlock ∷ [])))
          (caller_records refl (RecCallerMove.frees refl)) (freed, closing, refl, f, c))

    waits :
        (b over : Bool)
        → JointTrace
            (if_so b (stop_thread rec_thread) ++ (lock ∷ (freed ++ (closing ++ (unlock ∷ [])))))
            (record (at_rest j) {
              recording = false;
              recorder = recorder_standing b over;
              rec_stage = joining;
            })
            (rec_stopped j)
    waits true true =
        calling (stop_thread rec_thread) (caller_records refl (RecCallerMove.joins refl refl)) refl
          frees
    waits true false = silent (recorder_moves (RecorderMove.returns refl refl)) refl (
        calling (stop_thread rec_thread) (caller_records refl (RecCallerMove.joins refl refl)) refl
          frees)
    waits false over = silent (caller_records refl (RecCallerMove.joins_none refl refl)) refl frees

-- Others take the mutex and tell the transport a format.
abbrev pub AllSettings : List Event → Type 0
AllSettings [] = Unit
AllSettings (e ∷ es) = (is_setting e ≡ true) × AllSettings es

settings-JointTrace :
    (j : Joint) (es : List Event)
    → AllSettings es
    → JointTrace (es ++ (unlock ∷ [])) (record (at_rest j) { mutex = Mutex.by_others }) (at_rest j)
settings-JointTrace j [] s = last_move (unlock ∷ []) (others_unlock refl) refl
settings-JointTrace j (e ∷ es) s = sets e refl s.0 (settings-JointTrace j es s.1)

pub others-JointTrace :
    (j : Joint) (es : List Event)
    → AllSettings es
    → JointTrace (lock ∷ (es ++ (unlock ∷ []))) (at_rest j) (at_rest j)
others-JointTrace j es s = calling lock (others_lock refl) refl (settings-JointTrace j es s)
