-- ===== src/Host/Playback.antt =====
-- What reaches the far ends, read off the calls that a device makes.
use mqtgcalls.Prelude.{
  ℕ, suc, ◌+◌, ◌*◌, Bytes, List, [], ◌∷◌, ◌++◌, take, length, leb, Bool, true, ◌&&◌, ◌≡◌, refl, ap,
  sym, arith,
}
use mathlib.Core.List.{append_assoc}
use mqtgcalls.Host.{
  Event, set_recorded_buffer, file_write, playout_ended, put_recorded, request_playout_data,
  sleep_ms,
}

-- The audio of a device that SetRecordedBuffer reads, in order: `n` frames of two 16-bit channels.
-- What the transport passes on is in `Transport`.
unfoldable pub captured : List Event → Bytes
captured [] = []
captured (set_recorded_buffer b n ∷ es) = take (n * 2 * 2) b ++ captured es
captured (e ∷ es) = captured es

-- The audio that a device writes to its output file, in order.
unfoldable pub saved : List Event → Bytes
saved [] = []
saved (file_write b ∷ es) = b ++ saved es
saved (e ∷ es) = saved es

-- The audio that a device hands to the callback for playout, in order.
unfoldable pub relayed : List Event → Bytes
relayed [] = []
relayed (put_recorded b n ∷ es) = b ++ relayed es
relayed (e ∷ es) = relayed es

-- `SetRecordedBuffer` reads `n` frames of two 16-bit channels: they are there.
unfoldable pub overread_free : List Event → Bool
overread_free [] = true
overread_free (set_recorded_buffer b n ∷ es) = leb (n * 2 * 2) (length b) && overread_free es
overread_free (e ∷ es) = overread_free es

-- The names with which the end of the input was announced.
unfoldable pub endings : List Event → List Bytes
endings [] = []
endings (playout_ended name ∷ es) = name ∷ endings es
endings (e ∷ es) = endings es

-- The milliseconds slept.
unfoldable pub slept : List Event → ℕ
slept [] = 0
slept (sleep_ms n ∷ es) = n + slept es
slept (e ∷ es) = slept es

-- How often the transport was asked for audio to play.
unfoldable pub requests : List Event → ℕ
requests [] = 0
requests (request_playout_data n ∷ es) = suc (requests es)
requests (e ∷ es) = requests es

pub requests-append : (es fs : List Event) → requests (es ++ fs) ≡ requests es + requests fs
unfolding requests
requests-append [] fs = omega arith
requests-append (request_playout_data n ∷ es) fs = omega (arith, requests-append es fs)
requests-append (e ∷ es) fs = requests-append es fs

pub captured-append : (es fs : List Event) → captured (es ++ fs) ≡ captured es ++ captured fs
unfolding captured
captured-append [] fs = refl
captured-append (set_recorded_buffer b n ∷ es) fs =
    rw (captured-append es fs) (sym (append_assoc (take (n * 2 * 2) b) (captured es) (captured fs)))
captured-append (e ∷ es) fs = captured-append es fs

pub saved-append : (es fs : List Event) → saved (es ++ fs) ≡ saved es ++ saved fs
unfolding saved
saved-append [] fs = refl
saved-append (file_write b ∷ es) fs =
    rw (saved-append es fs) (sym (append_assoc b (saved es) (saved fs)))
saved-append (e ∷ es) fs = saved-append es fs

pub relayed-append : (es fs : List Event) → relayed (es ++ fs) ≡ relayed es ++ relayed fs
unfolding relayed
relayed-append [] fs = refl
relayed-append (put_recorded b n ∷ es) fs =
    rw (relayed-append es fs) (sym (append_assoc b (relayed es) (relayed fs)))
relayed-append (e ∷ es) fs = relayed-append es fs

pub endings-append : (es fs : List Event) → endings (es ++ fs) ≡ endings es ++ endings fs
unfolding endings
endings-append [] fs = refl
endings-append (playout_ended name ∷ es) fs = ap (◌∷◌ name) (endings-append es fs)
endings-append (e ∷ es) fs = endings-append es fs
