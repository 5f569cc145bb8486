-- ===== src/RawAudioDevice/Delivery.antt =====
-- DeliverRecordedData in RecThreadProcess (src/RawAudioDevice.cpp): each block that is given to the
-- transport is passed on at once.
use mathlib.Core.List.{append-nil}
use mqtgcalls.Prelude.{Bytes, false, List, [], ◌∷◌, ◌≡◌, refl, arith, inl, inr, Bool-cases}
use mqtgcalls.Host.Playback.{captured, captured-append}
use mqtgcalls.Host.Transport.{delivered, stored_after, delivered-append, joined, joined-append}
use mqtgcalls.RawAudioDevice.Defs.{RawAudioDevice}
use mqtgcalls.RawAudioDevice.Threads.{Tick, rec_thread_process, rec_thread_func}
use mqtgcalls.RawAudioDevice.Relay.{rec_func_continues}

round-delivered :
    (stored : Bytes) (t : Tick) (d : RawAudioDevice)
    → joined (delivered stored (rec_thread_process t d).2) ≡ captured (rec_thread_process t d).2
unfolding rec_thread_process delivered captured
round-delivered stored t d = ground arith

rec_func_stops :
    (t : Tick) (ts : List Tick) (d : RawAudioDevice)
    → (rec_thread_process t d).0 ≡ false
    → rec_thread_func (t ∷ ts) d ≡ (false, (rec_thread_process t d).1, (rec_thread_process t d).2)
unfolding rec_thread_func
rec_func_stops t ts d e = ground (arith, append-nil (rec_thread_process t d).2)

-- The audio that the transport is given is the audio that it passes on, block for block, while the
-- recording thread of a raw device runs.
pub func-delivered :
    (stored : Bytes) (ts : List Tick) (d : RawAudioDevice)
    → joined (delivered stored (rec_thread_func ts d).2) ≡ captured (rec_thread_func ts d).2
func-delivered stored [] d = unfold rec_thread_func delivered captured in refl
func-delivered stored (t ∷ ts) d = elim (Bool-cases (rec_thread_process t d).0) [
  | inl on ↦
      rw
        (
          rec_func_continues t ts d on,
          delivered-append stored (rec_thread_process t d).2 _,
          joined-append (delivered stored (rec_thread_process t d).2) _,
          captured-append (rec_thread_process t d).2 _,
          round-delivered stored t d,
          func-delivered (stored_after stored (rec_thread_process t d).2) ts
              (rec_thread_process t d).1,
        )
        refl
  | inr off ↦ rw (rec_func_stops t ts d off) (round-delivered stored t d)
]
