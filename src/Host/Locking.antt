-- ===== src/Host/Locking.antt =====
-- The discipline that the device's `mutex_` keeps, as an automaton over the calls that a device
-- makes. `webrtc::Mutex` is not recursive: to lock it twice is a deadlock.
use mqtgcalls.Prelude.{Bool, true, false, List, [], ◌∷◌, ◌++◌, Option, none, some, ◌≡◌, refl}
use mqtgcalls.Host.{
  Event, lock, unlock, request_playout_data, get_playout_data, set_recorded_buffer,
  deliver_recorded_data, stop_thread, file_write, file_read, file_rewind, put_recorded, get_played,
  sleep_ms,
}

-- What an event asks of the mutex, given whether the caller holds it; `none` breaks the rules:
-- the transport, a join and a sleep want the mutex free, a transfer to or from the device's buffers and files
-- wants it held.
unfoldable pub guarded : Bool → Event → Option Bool
guarded false lock = some true
guarded true lock = none
guarded true unlock = some false
guarded false unlock = none
guarded false (request_playout_data n) = some false
guarded true (request_playout_data n) = none
guarded false deliver_recorded_data = some false
guarded true deliver_recorded_data = none
guarded false (stop_thread w) = some false
guarded true (stop_thread w) = none
guarded false (sleep_ms n) = some false
guarded true (sleep_ms n) = none
guarded true get_playout_data = some true
guarded false get_playout_data = none
guarded true (set_recorded_buffer b n) = some true
guarded false (set_recorded_buffer b n) = none
guarded true (file_write b) = some true
guarded false (file_write b) = none
guarded true (file_read n) = some true
guarded false (file_read n) = none
guarded true file_rewind = some true
guarded false file_rewind = none
guarded true (put_recorded b n) = some true
guarded false (put_recorded b n) = none
guarded true (get_played n) = some true
guarded false (get_played n) = none
guarded held e = some held

-- `none` once an event has broken the rules.
abbrev next_guarded : Option Bool → Event → Option Bool
next_guarded none e = none
next_guarded (some held) e = guarded held e

unfoldable pub guarded_from : Option Bool → List Event → Option Bool
unfolding guarded
guarded_from s [] = s
guarded_from s (e ∷ es) = guarded_from (next_guarded s e) es

-- Taken with the mutex free, the calls keep to the rules and leave it free.
abbrev pub KeepsDiscipline : List Event → Type 0
KeepsDiscipline es = guarded_from (some false) es ≡ some false

pub guarded_from-append :
    (s : Option Bool) (es fs : List Event)
    → guarded_from s (es ++ fs) ≡ guarded_from (guarded_from s es) fs
unfolding guarded_from
guarded_from-append s [] fs = refl
guarded_from-append s (e ∷ es) fs = guarded_from-append (next_guarded s e) es fs
