-- ===== src/RawAudioDevice/Descriptor.antt =====
-- src/RawAudioDeviceDescriptor.cpp and .h: the bridge from the device to its Python callbacks.
use mqtgcalls.Prelude.{ℕ, Bytes, Bool, take}
use mqtgcalls.Prelude.Monad.{M, pure, emit, ◌>>◌}
use mqtgcalls.Host.{Event, put_recorded, get_played}

-- What the callbacks answer while one call of the device runs; all are taken to be set. `played` is
-- the answer of `_getPlayedBufferCallback`, of any length.
pub record RawAudioDeviceDescriptor : Type 0 where
  pub played : Bytes
  pub is_playout_paused : Bool
  pub is_recording_paused : Bool

-- The callback gets a copy of `length` bytes from the pointer `frame` on.
unfoldable pub set_recorded_buffer : {S : Type 0} → Bytes → ℕ → M S Event (Unit {0})
set_recorded_buffer frame length = emit (put_recorded (take length frame) length)

unfoldable pub get_playout_buffer : {S : Type 0} → RawAudioDeviceDescriptor → ℕ → M S Event Bytes
get_playout_buffer answers length = do
  emit (get_played length)
  let frame = answers.played
  pure frame
