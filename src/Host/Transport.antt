-- ===== src/Host/Transport.antt =====
-- The transport, WebRTC's AudioDeviceBuffer, behind the pointer that AttachAudioBuffer sets.
use mathlib.Core.List.{append_assoc}
use mqtgcalls.Prelude.{
  ◌*◌, Bytes, Bool, true, false, List, [], ◌∷◌, ◌++◌, Option, none, some, take, not, ◌&&◌, ◌≡◌,
  refl, ap, ◌∙◌, sym, if◌then◌else◌,
}
use mqtgcalls.Host.{
  Event, set_playout_sample_rate, set_recording_sample_rate, set_playout_channels,
  set_recording_channels, request_playout_data, get_playout_data, set_recorded_buffer,
  deliver_recorded_data,
}

-- Whether a device calls the transport.
unfoldable pub uses_transport : List Event → Bool
uses_transport [] = false
uses_transport (set_playout_sample_rate n ∷ es) = true
uses_transport (set_recording_sample_rate n ∷ es) = true
uses_transport (set_playout_channels n ∷ es) = true
uses_transport (set_recording_channels n ∷ es) = true
uses_transport (request_playout_data n ∷ es) = true
uses_transport (get_playout_data ∷ es) = true
uses_transport (set_recorded_buffer b n ∷ es) = true
uses_transport (deliver_recorded_data ∷ es) = true
uses_transport (e ∷ es) = uses_transport es

-- Code that a device runs, with a call through a null `_ptrAudioBuffer` as a fault, `none`.
abbrev pub checked : {R : Type 0} → (attached : Bool) → List Event → R → Option R
checked attached es r = if not attached && uses_transport es then none else some r

pub checked_attached :
    {R : Type 0} (attached : Bool) (es : List Event) (r : R)
    → attached ≡ true
    → checked attached es r ≡ some r
checked_attached attached es r h = rw h refl

-- SetRecordedBuffer copies a block, and DeliverRecordedData passes on the block copied last: the
-- blocks passed on, in order, if `stored` is the one there at first,
unfoldable pub delivered : (stored : Bytes) → List Event → List Bytes
delivered stored [] = []
delivered stored (set_recorded_buffer b n ∷ es) = delivered (take (n * 2 * 2) b) es
delivered stored (deliver_recorded_data ∷ es) = stored ∷ delivered stored es
delivered stored (e ∷ es) = delivered stored es

-- and the one there at the end.
unfoldable pub stored_after : (stored : Bytes) → List Event → Bytes
stored_after stored [] = stored
stored_after stored (set_recorded_buffer b n ∷ es) = stored_after (take (n * 2 * 2) b) es
stored_after stored (e ∷ es) = stored_after stored es

pub delivered-append :
    (stored : Bytes) (es fs : List Event)
    → delivered stored (es ++ fs) ≡ delivered stored es ++ delivered (stored_after stored es) fs
unfolding delivered stored_after
delivered-append stored [] fs = refl
delivered-append stored (set_recorded_buffer b n ∷ es) fs =
    delivered-append (take (n * 2 * 2) b) es fs
delivered-append stored (deliver_recorded_data ∷ es) fs =
    ap (◌∷◌ stored) (delivered-append stored es fs)
delivered-append stored (e ∷ es) fs = delivered-append stored es fs

-- Blocks one after the other,
abbrev pub joined : List Bytes → Bytes
joined [] = []
joined (b ∷ bs) = b ++ joined bs

pub joined-append : (bs cs : List Bytes) → joined (bs ++ cs) ≡ joined bs ++ joined cs
joined-append [] cs = refl
joined-append (b ∷ bs) cs =
    ap (λ x. b ++ x) (joined-append bs cs) ∙ sym (append_assoc b (joined bs) (joined cs))

-- and the last of them, or what came before.
abbrev pub last_of : (before : Bytes) → List Bytes → Bytes
last_of before [] = before
last_of before (b ∷ bs) = last_of b bs
