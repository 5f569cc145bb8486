-- ===== src/FileAudioDevice/Delivery.antt =====
-- DeliverRecordedData in RecThreadProcess (src/FileAudioDevice.cpp), without endless playout: each
-- block that is given to the transport is passed on at once.
use mqtgcalls.Prelude.{Bytes, false, List, [], ◌∷◌, ◌≡◌, refl, arith, inl, inr, Bool-cases}
use mqtgcalls.Host.Files.{FileApi}
use mqtgcalls.Host.Playback.{captured, captured-append}
use mqtgcalls.Host.Transport.{delivered, stored_after, delivered-append, joined, joined-append}
use mqtgcalls.FileAudioDevice.Defs.{FileAudioDevice}
use mqtgcalls.FileAudioDevice.Threads.{
  Tick, rec_thread_process, record_block, end_round, rec_thread_func,
}
use mqtgcalls.FileAudioDevice.Playback.{PlaysOnce, func_continues, func_stops}

abbrev pub AreOnce : List Tick → Type 0
AreOnce [] = Unit
AreOnce (t ∷ ts) = (t.answers.is_endless_playout ≡ false) × AreOnce ts

pub PlaysOnce-AreOnce :
    (name : Bytes) (last : _) (ts : List Tick) → PlaysOnce name last ts → AreOnce ts
PlaysOnce-AreOnce name last [] p = tt
PlaysOnce-AreOnce name last (t ∷ ts) p = (p.2, PlaysOnce-AreOnce name t.now ts p.5)

module _ {File : Type 0} (api : FileApi File) where
  round-delivered :
      (stored : Bytes) (t : Tick) (d : FileAudioDevice File)
      → t.answers.is_endless_playout ≡ false
      → joined (delivered stored (rec_thread_process api t d).2)
        ≡ captured (rec_thread_process api t d).2
  unfolding rec_thread_process record_block end_round delivered captured
  round-delivered stored t d once = ground arith

  -- The audio that the transport is given is the audio that it passes on, block for block, while
  -- the recording thread of a file device runs without endless playout.
  pub func-delivered :
      (stored : Bytes) (ts : List Tick) (d : FileAudioDevice File)
      → AreOnce ts
      → joined (delivered stored (rec_thread_func api ts d).2)
        ≡ captured (rec_thread_func api ts d).2
  func-delivered stored [] d once = unfold rec_thread_func delivered captured in refl
  func-delivered stored (t ∷ ts) d once = elim (Bool-cases (rec_thread_process api t d).0) [
    | inl on ↦
        rw
          (
            func_continues api t ts d on,
            delivered-append stored (rec_thread_process api t d).2 _,
            joined-append (delivered stored (rec_thread_process api t d).2) _,
            captured-append (rec_thread_process api t d).2 _,
            round-delivered stored t d once.0,
            func-delivered (stored_after stored (rec_thread_process api t d).2) ts
                (rec_thread_process api t d).1 once.1,
          )
          refl
    | inr off ↦ rw (func_stops api t ts d off) (round-delivered stored t d once.0)
  ]
