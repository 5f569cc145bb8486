-- ===== src/FileAudioDevice/Naming.antt =====
-- The name and the unique id that the device reports.
use mqtgcalls.Prelude.{
  ℕ, zero, suc, ◌<◌, Bytes, List, [], ◌≡◌, refl, ℤ, pos, minus_one, arith, take, replicate, overlay,
  overlay_none, ◌⊎◌,
}
use mqtgcalls.FileAudioDevice.Devices.{
  strlen, dummy_name, dummy_guid, playout_device_name, recording_device_name,
}

strlen-zeros : (n : ℕ) → strlen (replicate n 0) ≡ 0
unfolding strlen replicate
strlen-zeros zero = refl
strlen-zeros (suc n) = refl

take-zero {ℓ} : {A : Type ℓ} (n : ℕ) (xs : List A) → n ≡ 0 → take n xs ≡ []
unfolding take
take-zero zero xs h = refl
take-zero (suc n) xs h = absurd (omega arith)

name_starts : (size : ℕ) → take 12 (overlay (take 12 dummy_name) (replicate size 0)) ≡ dummy_name
unfolding take overlay
name_starts size = refl

guid_stays_empty :
    (size : ℕ)
    → overlay (take (strlen (replicate size 0)) dummy_guid) (replicate size 0) ≡ replicate size 0
guid_stays_empty size =
    rw (take-zero (strlen (replicate size 0)) dummy_guid (strlen-zeros size))
      (overlay_none (replicate size 0))

-- What a caller gets for device 0, and for any other.
abbrev pub Named : ℕ → ℕ → Bytes → Bytes → ℤ × Bytes × Bytes → Type 0
Named guid_size index name guid (status, name', guid') =
    ((index ≡ 0)
      × (status ≡ pos 0)
      × (take 12 name' ≡ dummy_name)
      × (guid' ≡ replicate guid_size 0))
    ⊎ ((0 < index) × (status ≡ minus_one) × (name' ≡ name) × (guid' ≡ guid))

-- For device 0 PlayoutDeviceName returns 0 and a name that starts with dummy_device, but the
-- unique id is left empty, all zero bytes; for any other device it returns -1 and changes
-- neither.
pub playout_device_name-Named :
    (name_size guid_size index : ℕ) (name guid : Bytes)
    → Named guid_size index name guid (playout_device_name name_size guid_size index name guid)
unfolding playout_device_name
playout_device_name-Named name_size guid_size index name guid =
    ground (arith, name_starts name_size, guid_stays_empty guid_size)

pub recording_device_name-Named :
    (name_size guid_size index : ℕ) (name guid : Bytes)
    → Named guid_size index name guid (recording_device_name name_size guid_size index name guid)
unfolding recording_device_name
recording_device_name-Named name_size guid_size index name guid =
    ground (arith, name_starts name_size, guid_stays_empty guid_size)
