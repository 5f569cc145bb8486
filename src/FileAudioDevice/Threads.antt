-- ===== src/FileAudioDevice/Threads.antt =====
-- The two worker threads: one round of each, and the loops.
use mathlib.Core.Option
use mqtgcalls.Prelude.{
  ℕ, ◌+◌, ◌-◌, Bytes, Bool, true, false, List, [], ◌∷◌, Option, none, some, take, overlay, length,
  ltb, leb, ◌==◌, ◌&&◌, ◌||◌, not,
}
use mqtgcalls.Prelude.Monad.{if◌then◌else◌, M, pure, get, modify, emit, when, ◌>>=◌, ◌>>◌}
use mqtgcalls.Host.{
  Event, lock, unlock, request_playout_data, get_playout_data, set_recorded_buffer,
  deliver_recorded_data, file_write, file_read, file_rewind, playout_ended, sleep_ms,
}
use mqtgcalls.Host.Files.{FileApi}
use mqtgcalls.FileAudioDevice.Defs.{
  FileAudioDeviceDescriptor, DeviceM, playout_buffer_size, recording_buffer_size,
}

-- What a round meets: the clock at its start and before its end, in milliseconds, what
-- `GetPlayoutData` copies and returns, and the answers of the descriptor.
pub record Tick : Type 0 where
  pub now : ℕ
  pub later : ℕ
  pub samples : Bytes
  pub frames : ℕ
  pub answers : FileAudioDeviceDescriptor

-- The bytes behind a pointer; a null pointer has none.
abbrev pub bytes_at : Option Bytes → Bytes
bytes_at none = []
bytes_at (some b) = b

-- `last == 0 || now - last >= 10`, over 64-bit times.
abbrev pub is_due : (last now : ℕ) → Bool
is_due last now = last == 0 || leb (last + 10) now

-- `if (delta < 10) SleepMs(10 - delta)` for `delta = later - now`.
abbrev pub pace : {S : Type 0} → Tick → M S Event (Unit {0})
pace t = when (ltb t.later (t.now + 10)) (emit (sleep_ms (t.now + 10 - t.later)))

module _ {File : Type 0} (api : FileApi File) where
  write_block : DeviceM File (Unit {0})
  write_block = do
    d ← get
    emit (file_write (take playout_buffer_size (bytes_at d.playout_buffer)))
    modify (λ d. record d {
      output_file = api.write d.output_file (take playout_buffer_size (bytes_at d.playout_buffer));
    })

  -- The calls to the transport here and below go through `_ptrAudioBuffer`, without a test for null:
  -- `checked_step` of `Calls` is the same code with such a call as a fault.
  --
  -- The body of the time test. `RTC_DCHECK_EQ` does nothing in a release build.
  play_block : Tick → DeviceM File (Unit {0})
  unfolding write_block
  play_block t = do
    emit unlock
    d ← get
    emit (request_playout_data d.playout_frames_in_10ms)
    emit lock
    emit get_playout_data
    modify (λ d. record d {
      playout_frames_left = t.frames;
      playout_buffer = Option.map (overlay t.samples) d.playout_buffer;
    })
    d' ← get
    when (api.is_open d'.output_file && not t.answers.is_recording_paused) write_block
    modify (λ d. record d { last_call_playout_millis = t.now })

  unfoldable pub play_thread_process : Tick → DeviceM File Bool
  unfolding play_block
  play_thread_process t = do
    d ← get
    if not d.playing then pure false else (do
      emit lock
      d ← get
      when (is_due d.last_call_playout_millis t.now) (play_block t)
      modify (λ d. record d { playout_frames_left = 0 })
      emit unlock
      pace t
      pure true)

  -- `_inputFile.Read(_recordingBuffer, kRecordingBufferSize) > 0`
  read_block : DeviceM File Bool
  read_block = do
    d ← get
    emit (file_read recording_buffer_size)
    modify (λ d. record d {
      input_file = (api.read d.input_file recording_buffer_size).1;
      recording_buffer =
          Option.map (overlay (api.read d.input_file recording_buffer_size).0) d.recording_buffer;
    })
    pure (ltb 0 (length (api.read d.input_file recording_buffer_size).0))

  announce : Tick → DeviceM File (Unit {0})
  announce t =
      when t.answers.has_playout_ended_callback (emit (playout_ended t.answers.input_filename))

  -- From `mutex_.Unlock()` under the two tests to the end of the function.
  unfoldable pub end_round : Tick → DeviceM File Bool
  end_round t = do emit unlock; pace t; pure true

  deliver : Tick → DeviceM File Bool
  deliver t = do
    modify (λ d. record d { last_call_record_millis = t.now })
    emit unlock
    emit deliver_recorded_data
    emit lock
    end_round t

  unfoldable pub record_block : Tick → DeviceM File Bool
  unfolding read_block announce deliver end_round
  record_block t = do
    got ← read_block
    if got
        then (do
          d ← get
          emit (set_recorded_buffer (bytes_at d.recording_buffer) d.recording_frames_in_10ms)
          deliver t)
        else (if t.answers.is_endless_playout
            then (do
              emit file_rewind
              modify (λ d. record d { input_file = api.rewind d.input_file })
              announce t
              deliver t)
            else (do emit unlock; announce t; pure false))

  unfoldable pub rec_thread_process : Tick → DeviceM File Bool
  rec_thread_process t = do
    d ← get
    if not d.recording then pure false else (do
      emit lock
      if is_due d.last_call_record_millis t.now
            && (api.is_open d.input_file && not t.answers.is_playout_paused)
          then record_block t
          else end_round t)

  -- The loops, over the rounds that there is time for; `true` if the thread still runs after them.
  unfoldable pub play_thread_func : List Tick → DeviceM File Bool
  play_thread_func [] = pure true
  play_thread_func (t ∷ ts) = do
    more ← play_thread_process t
    if more then play_thread_func ts else pure false

  unfoldable pub rec_thread_func : List Tick → DeviceM File Bool
  rec_thread_func [] = pure true
  rec_thread_func (t ∷ ts) = do
    more ← rec_thread_process t
    if more then rec_thread_func ts else pure false
