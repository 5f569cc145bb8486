-- ===== src/RawAudioDevice/Control.antt =====
-- Starting and stopping, as the audio module calls it from outside the two worker threads.
use mqtgcalls.Prelude.{ℕ, ◌*◌, ◌/◌, Bool, true, false, none, ℤ, pos, minus_one, ◌==◌, not}
use mqtgcalls.Prelude.Monad.{if◌then◌else◌, pure, get, modify, emit, when, ◌>>=◌, ◌>>◌}
use mqtgcalls.Host.{
  lock, unlock, play_thread, rec_thread, start_thread, stop_thread, new_buffer, delete_buffer,
  set_playout_sample_rate, set_playout_channels, set_recording_sample_rate, set_recording_channels,
}
use mqtgcalls.Host.Files.{Heap}
use mqtgcalls.FileAudioDevice.Control.{is_null, or_new}
use mqtgcalls.RawAudioDevice.Defs.{
  RawAudioDevice, DeviceM, playout_fixed_sample_rate, playout_num_channels,
  recording_fixed_sample_rate, recording_num_channels, playout_buffer_size,
}

unfoldable pub set_playout_device : ℕ → DeviceM ℤ
set_playout_device index =
    if index == 0
    then (do modify (λ d. record d { playout_index = pos index }); pure (pos 0))
    else pure minus_one

unfoldable pub set_recording_device : ℕ → DeviceM ℤ
set_recording_device index =
    if index == 0
    then (do modify (λ d. record d { record_index = pos index }); d ← get; pure d.record_index)
    else pure minus_one

unfoldable pub init_playout : DeviceM ℤ
init_playout = do
  emit lock
  d ← get
  if d.playing then (do emit unlock; pure minus_one) else (do
    modify (λ d. record d { playout_frames_in_10ms = playout_fixed_sample_rate / 100 })
    when d.audio_buffer (do
      emit (set_playout_sample_rate playout_fixed_sample_rate)
      emit (set_playout_channels playout_num_channels))
    emit unlock
    pure (pos 0))

unfoldable pub playout_is_initialized : RawAudioDevice → Bool
playout_is_initialized d = not (d.playout_frames_in_10ms == 0)

unfoldable pub init_recording : DeviceM ℤ
init_recording = do
  emit lock
  d ← get
  if d.recording then (do emit unlock; pure minus_one) else (do
    modify (λ d. record d { recording_frames_in_10ms = recording_fixed_sample_rate / 100 })
    when d.audio_buffer (do
      emit (set_recording_sample_rate recording_fixed_sample_rate)
      emit (set_recording_channels recording_num_channels))
    emit unlock
    pure (pos 0))

unfoldable pub recording_is_initialized : RawAudioDevice → Bool
recording_is_initialized d = not (d.recording_frames_in_10ms == 0)

-- The pointer is not null: WebRTC passes the address of a member of its module.
unfoldable pub attach_audio_buffer : DeviceM (Unit {0})
attach_audio_buffer = do
  emit lock
  modify (λ d. record d { audio_buffer = true })
  emit (set_recording_sample_rate 0)
  emit (set_playout_sample_rate 0)
  emit (set_recording_channels 0)
  emit (set_playout_channels 0)
  emit unlock

-- The end of `StartPlayout`: a new thread takes the place of the one held.
launch_playout : DeviceM ℤ
launch_playout = do
  modify (λ d. record d { thread_play = true })
  emit (start_thread play_thread)
  pure (pos 0)

launch_recording : DeviceM ℤ
launch_recording = do
  modify (λ d. record d { thread_rec = true })
  emit (start_thread rec_thread)
  pure (pos 0)

unfoldable pub start_playout : Heap → DeviceM ℤ
unfolding launch_playout
start_playout heap = do
  d ← get
  if d.playing then pure (pos 0) else (do
    when (is_null d.playout_buffer) (emit (new_buffer play_thread))
    modify (λ d. record d {
      playing = true;
      playout_frames_left = 0;
      playout_buffer = or_new heap playout_buffer_size d.playout_buffer;
    })
    d' ← get
    if is_null d'.playout_buffer
        then (do modify (λ d. record d { playing = false }); pure minus_one)
        else launch_playout)

unfoldable pub stop_playout : DeviceM ℤ
stop_playout = do
  emit lock
  modify (λ d. record d { playing = false })
  emit unlock
  d ← get
  when d.thread_play
      (do emit (stop_thread play_thread); modify (λ d. record d { thread_play = false }))
  emit lock
  when (not (is_null d.playout_buffer)) (emit (delete_buffer play_thread))
  modify (λ d. record d { playout_frames_left = 0; playout_buffer = none })
  emit unlock
  pure (pos 0)

-- A start while a thread runs puts a new one in its place, without waiting for it; `thread_rec` says
-- only that there is a thread.
unfoldable pub start_recording : Heap → DeviceM ℤ
unfolding launch_recording
start_recording heap = do
  modify (λ d. record d { recording = true })
  modify (λ d. record d {
    recording_buffer_size_in_10ms = d.recording_frames_in_10ms * recording_num_channels * 2;
  })
  d ← get
  when (is_null d.recording_buffer) (emit (new_buffer rec_thread))
  modify (λ d. record d {
    recording_buffer = or_new heap d.recording_buffer_size_in_10ms d.recording_buffer;
  })
  launch_recording

unfoldable pub stop_recording : DeviceM ℤ
stop_recording = do
  emit lock
  modify (λ d. record d { recording = false })
  emit unlock
  d ← get
  when d.thread_rec
      (do emit (stop_thread rec_thread); modify (λ d. record d { thread_rec = false }))
  emit lock
  when (not (is_null d.recording_buffer)) (emit (delete_buffer rec_thread))
  modify (λ d. record d { recording_buffer = none })
  emit unlock
  pure (pos 0)
