-- ===== src/FileAudioDevice/Turns.antt =====
-- PlayThreadFunc and RecThreadFunc (src/FileAudioDevice.cpp) side by side: their rounds in any order.
use mqtgcalls.Prelude.{true, List, [], ◌∷◌, ◌≡◌, refl, arith}
use mqtgcalls.Host.Files.{FileApi}
use mqtgcalls.Host.Turns.{Halves, Turn, play_turns, rec_turns, loop, run_turns, run_turns-apart}
use mqtgcalls.FileAudioDevice.Defs.{FileAudioDevice}
use mqtgcalls.FileAudioDevice.Threads.{
  Tick, play_thread_process, rec_thread_process, play_thread_func, rec_thread_func,
}
use mqtgcalls.FileAudioDevice.Independence.{
  with_play, with_rec, play_owns, rec_owns, play_ignores, rec_ignores,
}

module _ {File : Type 0} (api : FileApi File) where
  abbrev pub file_halves : Halves (FileAudioDevice File) Tick
  file_halves = record {
    play = play_thread_process api;
    rec = rec_thread_process api;
    with_play = with_play;
    with_rec = with_rec;
    play_owns = play_owns api;
    rec_owns = rec_owns api;
    play_ignores = play_ignores api;
    rec_ignores = rec_ignores api;
    with_play_self = λ d. refl;
    with_rec_self = λ d. refl;
    with_rec_rec = λ d e f. refl;
    with_rec_play = λ d e f. refl;
  }

  play_thread_func-loop :
      (ts : List Tick) (d : FileAudioDevice File)
      → play_thread_func api ts d ≡ loop (play_thread_process api) ts d
  unfolding play_thread_func loop
  play_thread_func-loop [] d = refl
  play_thread_func-loop (t ∷ ts) d =
      ground (arith, play_thread_func-loop ts (play_thread_process api t d).1)

  rec_thread_func-loop :
      (ts : List Tick) (d : FileAudioDevice File)
      → rec_thread_func api ts d ≡ loop (rec_thread_process api) ts d
  unfolding rec_thread_func loop
  rec_thread_func-loop [] d = refl
  rec_thread_func-loop (t ∷ ts) d =
      ground (arith, rec_thread_func-loop ts (rec_thread_process api t d).1)

  -- In whatever order the rounds of the two threads of a file device follow one another, where
  -- the rounds of a thread that has returned do nothing: each thread runs on or returns, and
  -- makes the same calls in the same order, as if its rounds were run alone, and the device has
  -- its recording buffer, recording time and input file as the recording thread alone leaves them
  -- and all else as the playout thread alone does.
  pub threads_apart :
      (turns : List (Turn Tick)) (d : FileAudioDevice File)
      → run_turns file_halves turns true true d ≡ (
          let (p, d', ps) = play_thread_func api (play_turns turns) d in
          let (r, d'', rs) = rec_thread_func api (rec_turns turns) d in
          ((p, ps), (r, rs), with_rec d' d''))
  threads_apart turns d =
      rw (play_thread_func-loop (play_turns turns) d, rec_thread_func-loop (rec_turns turns) d)
        (run_turns-apart file_halves turns true true d)
