-- ===== src/Tests/FileThreads.antt =====
-- The threads of a file device.
use mqtgcalls.Prelude.{◌≡◌, refl, ◌≤◌, ◌++◌, true, false, List, [], ◌∷◌, arith, length-replicate}
use mqtgcalls.Host.MemFile.{MemFile, mem_api, mem_reads, mem_writes, mem_file}
use mqtgcalls.Host.Playback.{slept, requests}
use mqtgcalls.FileAudioDevice.Threads.{Tick, play_thread_process, play_thread_func, rec_thread_func}
use mqtgcalls.FileAudioDevice.Playback.{Plays, rec_thread_func-Plays_file}
use mqtgcalls.FileAudioDevice.Rounds.{IsReady}
use mqtgcalls.FileAudioDevice.Saving.{unpaused, play_thread_func-saves, IsSaving}
use mqtgcalls.FileAudioDevice.Passes.{Loops, rec_thread_func-Loops}
use mqtgcalls.FileAudioDevice.Announcing.{held_at_endings, AllAre, rec_thread_func-announces}
use mqtgcalls.FileAudioDevice.Pacing.{play_thread_func-requests}
use mqtgcalls.FileAudioDevice.Independence.{with_rec}
use mqtgcalls.Host.Turns.{Turn, play_turn, rec_turn, play_turns, rec_turns, run_turns}
use mqtgcalls.FileAudioDevice.Turns.{file_halves, threads_apart}
use mqtgcalls.FileAudioDevice.Interleaving.{
  System, nobody, returned, looping, between, joining, WorkerMove, CallerMove, by_caller, Reach,
  start, later,
}
use mqtgcalls.FileAudioDevice.Interleaving.Shutdown.{now, worked, join_bounded}
use mqtgcalls.Tests.{once, endless, busy, round, silence, in_name}

abbrev pub song : MemFile
song = mem_file (1 ∷ 2 ∷ 3 ∷ [])

song-IsReady : IsReady mem_api mem_reads (busy song) silence
song-IsReady = record {
  recording = refl;
  opened = refl;
  frames = refl;
  has_buffer = refl;
  fits = length-replicate 1920 0;
}

abbrev pub two_rounds : List Tick
two_rounds = round once 5 8 ∷ round once 15 18 ∷ []

rec_thread_func-Plays_file_example : Plays mem_api mem_reads in_name two_rounds (busy song)
rec_thread_func-Plays_file_example =
    rec_thread_func-Plays_file mem_api mem_reads in_name two_rounds (busy song) silence song-IsReady
      (refl, refl, refl, refl, refl, (refl, refl, refl, refl, refl, tt)) (omega arith)

song-IsSaving : IsSaving mem_api mem_writes (busy song)
song-IsSaving = record {
  playing = refl;
  opened = refl;
  has_buffer = (silence, refl, length-replicate 1920 0);
}

play_thread_func-saves_example :
    (play_thread_func mem_api two_rounds (busy song)).1.output_file.content
    ≡ [] ++ unpaused two_rounds
play_thread_func-saves_example =
    play_thread_func-saves mem_api mem_writes two_rounds (busy song) song-IsSaving
      (refl, length-replicate 1920 0, (refl, length-replicate 1920 0, tt))

-- The song twice: each time one block and the end.
abbrev endless_rounds : List Tick
endless_rounds =
    round endless 5 8 ∷ round endless 15 18 ∷ round endless 25 28 ∷ round endless 35 38 ∷ []

rec_thread_func-Loops_example : Loops mem_api mem_reads 1 [] in_name endless_rounds (busy song)
rec_thread_func-Loops_example =
    rec_thread_func-Loops mem_api mem_reads 1 [] in_name endless_rounds (busy song) silence
      song-IsReady
      (
        refl,
        refl,
        refl,
        refl,
        refl,
        (
          refl,
          refl,
          refl,
          refl,
          refl,
          (refl, refl, refl, refl, refl, (refl, refl, refl, refl, refl, tt)),
        ),
      )
      (omega arith)

rec_thread_func-announces_example :
    AllAre true (held_at_endings false (rec_thread_func mem_api endless_rounds (busy song)).2)
rec_thread_func-announces_example =
    rec_thread_func-announces mem_api true endless_rounds (busy song)
      (refl, (refl, (refl, (refl, tt))))

play_thread_func-requests_example : requests (play_thread_func mem_api two_rounds (busy song)).2 ≡ 2
play_thread_func-requests_example =
    play_thread_func-requests mem_api two_rounds (busy song) refl refl
      (unfold play_thread_process slept in (omega arith, tt))

-- Two rounds of playout around one of recording.
abbrev three_turns : List (Turn Tick)
three_turns =
    play_turn (round once 5 8) ∷ rec_turn (round once 6 9) ∷ play_turn (round once 15 18) ∷ []

threads_apart_example : run_turns (file_halves mem_api) three_turns true true (busy song) ≡ (
    let (p, d', ps) = play_thread_func mem_api (play_turns three_turns) (busy song) in
    let (r, d'', rs) = rec_thread_func mem_api (rec_turns three_turns) (busy song) in
    ((p, ps), (r, rs), with_rec d' d''))
threads_apart_example = threads_apart mem_api three_turns (busy song)

-- A thread in the middle of its first block, and a caller that then stops it.
started :
    Reach
      (record { playing = true; buffer = true; mutex = nobody; worker = looping; caller = between })
started =
    later (later start (by_caller (CallerMove.starts refl refl)))
      (by_caller (CallerMove.launches refl))

abbrev joining_now : System
joining_now = record {
  playing = false;
  buffer = true;
  mutex = nobody;
  worker = looping;
  caller = joining;
}

joining_reached : Reach joining_now
joining_reached =
    later
      (later (later started (by_caller (CallerMove.stops refl)))
        (by_caller (CallerMove.stop_locks refl refl)))
      (by_caller (CallerMove.marks refl))

join_bounded_example : ◌≤◌ 1 8 × (joining_now.playing ≡ false)
join_bounded_example =
    join_bounded joining_now (record joining_now { worker = returned }) 1 joining_reached refl
      (worked now (WorkerMove.returns refl refl))
