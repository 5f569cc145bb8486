-- ===== src/FileAudioDevice/Joint.antt =====
-- Both threads of a file device and the thread that starts and stops them, on one mutex: the moves
-- of `Interleaving` and `RecInterleaving`, each made on its own half of the device, in any order.
-- The caller works on one side at a time.
pub mod Trace
pub mod Rounds
pub mod Starts
pub mod Views
pub mod Safety
pub mod Progress
use mqtgcalls.Prelude.{Bool, false, ◌≡◌}
use mqtgcalls.FileAudioDevice.Interleaving.{
  Holder, nobody, caller_holds, worker_holds, other_holds, Worker, Caller, between, System,
  WorkerMove, CallerMove,
}
use mqtgcalls.FileAudioDevice.Interleaving as Play
use mqtgcalls.FileAudioDevice.RecInterleaving.{Recorder, RecSystem, RecorderMove, RecCallerMove}
use mqtgcalls.FileAudioDevice.RecInterleaving as Rec

-- Who holds `mutex_`.
pub data Mutex : Type 0 where
  free by_player by_recorder by_caller by_others : Mutex

pub record Joint : Type 0 where
  pub mutex : Mutex
  pub playing : Bool
  pub play_buffer : Bool
  pub player : Worker
  pub play_stage : Caller
  pub recording : Bool
  pub rec_buffer : Bool
  pub recorder : Recorder
  pub rec_stage : Caller

-- The mutex as one side sees it, given the stage of the caller's work on the other side.
abbrev pub play_mutex : Mutex → (rec_stage : Caller) → Holder
play_mutex free c = nobody
play_mutex by_player c = worker_holds
play_mutex by_caller between = caller_holds
play_mutex by_caller c = other_holds
play_mutex by_recorder c = other_holds
play_mutex by_others c = other_holds

abbrev pub rec_mutex : Mutex → (play_stage : Caller) → Holder
rec_mutex free c = nobody
rec_mutex by_recorder c = worker_holds
rec_mutex by_caller between = caller_holds
rec_mutex by_caller c = other_holds
rec_mutex by_player c = other_holds
rec_mutex by_others c = other_holds

abbrev pub play_view : Joint → System
play_view j = record {
  playing = j.playing;
  buffer = j.play_buffer;
  mutex = play_mutex j.mutex j.rec_stage;
  worker = j.player;
  caller = j.play_stage;
}

abbrev pub rec_view : Joint → RecSystem
rec_view j = record {
  recording = j.recording;
  buffer = j.rec_buffer;
  mutex = rec_mutex j.mutex j.play_stage;
  worker = j.recorder;
  caller = j.rec_stage;
}

-- The mutex after a move of a side, whose thread is `worker`, that leaves it as the first argument.
abbrev pub new_mutex : Holder → (worker before : Mutex) → Mutex
new_mutex nobody worker before = free
new_mutex worker_holds worker before = worker
new_mutex caller_holds worker before = by_caller
new_mutex other_holds worker before = before

abbrev pub put_play : System → Joint → Joint
put_play s j = record j {
  mutex = new_mutex s.mutex by_player j.mutex;
  playing = s.playing;
  play_buffer = s.buffer;
  player = s.worker;
  play_stage = s.caller;
}

abbrev pub put_rec : RecSystem → Joint → Joint
put_rec s j = record j {
  mutex = new_mutex s.mutex by_recorder j.mutex;
  recording = s.recording;
  rec_buffer = s.buffer;
  recorder = s.worker;
  rec_stage = s.caller;
}

pub data JointStep (j : Joint) : Joint → Type 0 where
  player_moves : {s : System} → WorkerMove (play_view j) s → JointStep j (put_play s j)
  recorder_moves : {s : RecSystem} → RecorderMove (rec_view j) s → JointStep j (put_rec s j)
  caller_plays :
      {s : System} → j.rec_stage ≡ between → CallerMove (play_view j) s → JointStep j (put_play s j)
  caller_records :
      {s : RecSystem}
      → j.play_stage ≡ between
      → RecCallerMove (rec_view j) s
      → JointStep j (put_rec s j)
  others_lock : j.mutex ≡ free → JointStep j (record j { mutex = by_others })
  others_unlock : j.mutex ≡ by_others → JointStep j (record j { mutex = free })

-- A new device.
abbrev pub joint_init : Joint
joint_init = record {
  mutex = free;
  playing = false;
  play_buffer = false;
  player = Worker.absent;
  play_stage = between;
  recording = false;
  rec_buffer = false;
  recorder = Recorder.absent;
  rec_stage = between;
}

pub data JointReach : Joint → Type 0 where
  start : JointReach joint_init
  later : {j k : Joint} → JointReach j → JointStep j k → JointReach k
