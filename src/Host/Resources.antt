-- ===== src/Host/Resources.antt =====
-- The threads and the buffers of a device as resources, and the rules for them as an automaton over
-- the calls that a device makes.
use mqtgcalls.Prelude.{
  Bool, true, false, List, [], ◌∷◌, ◌++◌, Option, none, some, ◌&&◌, not, ◌≡◌, refl, if◌then◌else◌,
}
use mqtgcalls.Host.{
  Worker, play_thread, rec_thread, Event, new_buffer, delete_buffer, start_thread, stop_thread,
  request_playout_data, get_playout_data, file_write, file_read, file_rewind, set_recorded_buffer,
  deliver_recorded_data, put_recorded, get_played,
}

-- What a side holds: a thread that was started and not joined, a buffer that was allocated and not
-- deleted.
pub record Side : Type 0 where
  pub thread : Bool
  pub buffer : Bool

pub record Held : Type 0 where
  pub play : Side
  pub rec : Side

abbrev pub nothing : Held
nothing = record {
  play = record { thread = false; buffer = false };
  rec = record { thread = false; buffer = false };
}

abbrev pub side : Worker → Held → Side
side play_thread h = h.play
side rec_thread h = h.rec

abbrev put_side : Worker → Side → Held → Held
put_side play_thread s h = record h { play = s }
put_side rec_thread s h = record h { rec = s }

abbrev with_thread : Worker → Bool → Held → Held
with_thread w b h = put_side w (record (side w h) { thread = b }) h

abbrev with_buffer : Worker → Bool → Held → Held
with_buffer w b h = put_side w (record (side w h) { buffer = b }) h

abbrev only_if : Bool → Held → Option Held
only_if b h = if b then some h else none

-- What an event asks of what is held, and leaves; `none` breaks the rules: a buffer is allocated
-- where there is none and deleted where there is one, both with no thread that could use it; a
-- thread is started where there is none, with its buffer, and joined where there is one; audio moves
-- only on a thread, and between the buffer and the outside only where the buffer is there.
unfoldable pub spend : Held → Event → Option Held
spend h (new_buffer w) =
    only_if (not (side w h).thread && not (side w h).buffer) (with_buffer w true h)
spend h (delete_buffer w) =
    only_if (not (side w h).thread && (side w h).buffer) (with_buffer w false h)
spend h (start_thread w) =
    only_if (not (side w h).thread && (side w h).buffer) (with_thread w true h)
spend h (stop_thread w) = only_if (side w h).thread (with_thread w false h)
spend h (request_playout_data n) = only_if h.play.thread h
spend h get_playout_data = only_if (h.play.thread && h.play.buffer) h
spend h (file_write b) = only_if (h.play.thread && h.play.buffer) h
spend h (put_recorded b n) = only_if (h.play.thread && h.play.buffer) h
spend h (file_read n) = only_if (h.rec.thread && h.rec.buffer) h
spend h file_rewind = only_if h.rec.thread h
spend h (set_recorded_buffer b n) = only_if (h.rec.thread && h.rec.buffer) h
spend h deliver_recorded_data = only_if h.rec.thread h
spend h (get_played n) = only_if h.rec.thread h
spend h e = some h

abbrev next_spend : Option Held → Event → Option Held
next_spend none e = none
next_spend (some h) e = spend h e

unfoldable pub spend_from : Option Held → List Event → Option Held
unfolding spend
spend_from s [] = s
spend_from s (e ∷ es) = spend_from (next_spend s e) es

pub spend_from-append :
    (s : Option Held) (es fs : List Event)
    → spend_from s (es ++ fs) ≡ spend_from (spend_from s es) fs
unfolding spend_from
spend_from-append s [] fs = refl
spend_from-append s (e ∷ es) fs = spend_from-append (next_spend s e) es fs
