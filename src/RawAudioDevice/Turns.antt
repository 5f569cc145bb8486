-- ===== src/RawAudioDevice/Turns.antt =====
-- PlayThreadFunc and RecThreadFunc (src/RawAudioDevice.cpp) side by side: their rounds in any order.
use mqtgcalls.Prelude.{true, List, [], ◌∷◌, ◌≡◌, refl, arith}
use mqtgcalls.Host.Turns.{Halves, Turn, play_turns, rec_turns, loop, run_turns, run_turns-apart}
use mqtgcalls.RawAudioDevice.Defs.{RawAudioDevice}
use mqtgcalls.RawAudioDevice.Threads.{
  Tick, play_thread_process, rec_thread_process, play_thread_func, rec_thread_func,
}
use mqtgcalls.RawAudioDevice.Independence.{
  with_play, with_rec, play_owns, rec_owns, play_ignores, rec_ignores,
}

abbrev pub raw_halves : Halves (RawAudioDevice) Tick
raw_halves = record {
  play = play_thread_process;
  rec = rec_thread_process;
  with_play = with_play;
  with_rec = with_rec;
  play_owns = play_owns;
  rec_owns = rec_owns;
  play_ignores = play_ignores;
  rec_ignores = rec_ignores;
  with_play_self = λ d. refl;
  with_rec_self = λ d. refl;
  with_rec_rec = λ d e f. refl;
  with_rec_play = λ d e f. refl;
}

play_thread_func-loop :
    (ts : List Tick) (d : RawAudioDevice) → play_thread_func ts d ≡ loop (play_thread_process) ts d
unfolding play_thread_func loop
play_thread_func-loop [] d = refl
play_thread_func-loop (t ∷ ts) d =
    ground (arith, play_thread_func-loop ts (play_thread_process t d).1)

rec_thread_func-loop :
    (ts : List Tick) (d : RawAudioDevice) → rec_thread_func ts d ≡ loop (rec_thread_process) ts d
unfolding rec_thread_func loop
rec_thread_func-loop [] d = refl
rec_thread_func-loop (t ∷ ts) d = ground (arith, rec_thread_func-loop ts (rec_thread_process t d).1)

-- In whatever order the rounds of the two threads of a raw device follow one another, where the
-- rounds of a thread that has returned do nothing: each thread runs on or returns, and makes the
-- same calls in the same order, as if its rounds were run alone, and the device has its recording
-- buffer and recording time as the recording thread alone leaves them and all else as the playout
-- thread alone does.
pub raw_threads_apart :
    (turns : List (Turn Tick)) (d : RawAudioDevice)
    → run_turns raw_halves turns true true d ≡ (
        let (p, d', ps) = play_thread_func (play_turns turns) d in
        let (r, d'', rs) = rec_thread_func (rec_turns turns) d in
        ((p, ps), (r, rs), with_rec d' d''))
raw_threads_apart turns d =
    rw (play_thread_func-loop (play_turns turns) d, rec_thread_func-loop (rec_turns turns) d)
      (run_turns-apart raw_halves turns true true d)
