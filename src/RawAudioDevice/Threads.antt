-- ===== src/RawAudioDevice/Threads.antt =====
-- The two worker threads: one round of each, and the loops.
use mathlib.Core.Option
use mqtgcalls.Prelude.{ℕ, ◌+◌, ◌-◌, Bytes, Bool, true, false, List, [], ◌∷◌, overlay, ltb, not}
use mqtgcalls.Prelude.Monad.{if◌then◌else◌, M, pure, get, modify, emit, when, ◌>>=◌, ◌>>◌}
use mqtgcalls.Host.{
  Event, lock, unlock, request_playout_data, get_playout_data, deliver_recorded_data, sleep_ms,
}
use mqtgcalls.Host as Calls
use mqtgcalls.FileAudioDevice.Threads.{bytes_at, is_due}
use mqtgcalls.RawAudioDevice.Descriptor.{
  RawAudioDeviceDescriptor, set_recorded_buffer, get_playout_buffer,
}
use mqtgcalls.RawAudioDevice.Defs.{DeviceM, playout_buffer_size, recording_buffer_size}

-- What a round meets: the clock at its start and before its end, in milliseconds, what
-- `GetPlayoutData` copies and returns, and the answers of the descriptor.
pub record Tick : Type 0 where
  pub now : ℕ
  pub later : ℕ
  pub samples : Bytes
  pub frames : ℕ
  pub answers : RawAudioDeviceDescriptor

-- `if (delta < 10) SleepMs(10 - delta)` for `delta = later - now`.
abbrev pub pace : {S : Type 0} → Tick → M S Event (Unit {0})
pace t = when (ltb t.later (t.now + 10)) (emit (sleep_ms (t.now + 10 - t.later)))

-- The calls to the transport here and below go through `_ptrAudioBuffer`, without a test for null:
-- `checked_step` of `Calls` is the same code with such a call as a fault.
--
-- The body of the time test. `RTC_DCHECK_EQ` does nothing in a release build.
play_block : Tick → DeviceM (Unit {0})
unfolding set_recorded_buffer
play_block t = do
  emit unlock
  d ← get
  emit (request_playout_data d.playout_frames_in_10ms)
  emit lock
  emit get_playout_data
  modify (λ d. record d {
    playout_frames_left = t.frames;
    playout_buffer = Option.map (overlay t.samples) d.playout_buffer;
  })
  d' ← get
  when (not t.answers.is_recording_paused)
      (set_recorded_buffer (bytes_at d'.playout_buffer) playout_buffer_size)
  modify (λ d. record d { last_call_playout_millis = t.now })

unfoldable pub play_thread_process : Tick → DeviceM Bool
unfolding play_block
play_thread_process t = do
  d ← get
  if not d.playing then pure false else (do
    emit lock
    d ← get
    when (is_due d.last_call_playout_millis t.now) (play_block t)
    modify (λ d. record d { playout_frames_left = 0 })
    emit unlock
    pace t
    pure true)

-- The body under the two tests. The transport reads the callback's bytes where they are.
record_block : Tick → DeviceM (Unit {0})
unfolding get_playout_buffer
record_block t = do
  recording_string_buffer ← get_playout_buffer t.answers recording_buffer_size
  d ← get
  emit (Calls.set_recorded_buffer recording_string_buffer d.recording_frames_in_10ms)
  modify (λ d. record d { last_call_record_millis = t.now })
  emit unlock
  emit deliver_recorded_data
  emit lock

unfoldable pub rec_thread_process : Tick → DeviceM Bool
unfolding record_block
rec_thread_process t = do
  d ← get
  if not d.recording then pure false else (do
    emit lock
    d ← get
    when (is_due d.last_call_record_millis t.now)
        (when (not t.answers.is_playout_paused) (record_block t))
    emit unlock
    pace t
    pure true)

-- The loops, over the rounds that there is time for; `true` if the thread still runs after them.
unfoldable pub play_thread_func : List Tick → DeviceM Bool
play_thread_func [] = pure true
play_thread_func (t ∷ ts) = do
  more ← play_thread_process t
  if more then play_thread_func ts else pure false

unfoldable pub rec_thread_func : List Tick → DeviceM Bool
rec_thread_func [] = pure true
rec_thread_func (t ∷ ts) = do
  more ← rec_thread_process t
  if more then rec_thread_func ts else pure false
