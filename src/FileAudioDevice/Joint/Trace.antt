-- ===== src/FileAudioDevice/Joint/Trace.antt =====
-- The calls that each move of the two threads and of their caller makes, and sequences of moves with
-- the calls of all of them in order.
use mathlib.Core.List.{append_assoc}
use mqtgcalls.Prelude.{ℕ, Bytes, Bool, true, false, List, [], ◌∷◌, ◌++◌, ◌≡◌, ap, ◌∙◌}
use mqtgcalls.Host.{
  Worker, play_thread, rec_thread, Event, lock, unlock, set_playout_sample_rate,
  set_recording_sample_rate, set_playout_channels, set_recording_channels, request_playout_data,
  get_playout_data, set_recorded_buffer, deliver_recorded_data, start_thread, stop_thread,
  new_buffer, delete_buffer, open_output, open_input, close_output, close_input, file_write,
  file_read, file_rewind, playout_ended, put_recorded, get_played, sleep_ms,
}
use mqtgcalls.FileAudioDevice.Interleaving.{System, WorkerMove, CallerMove}
use mqtgcalls.FileAudioDevice.RecInterleaving.{RecSystem, RecorderMove, RecCallerMove}
use mqtgcalls.FileAudioDevice.Joint.{
  by_others, Joint, JointStep, player_moves, recorder_moves, caller_plays, caller_records,
  others_lock, others_unlock, JointReach, later,
}

-- Kinds of calls that a move may make once or not at all.
abbrev pub is_sleep : Event → Bool
is_sleep (sleep_ms n) = true
is_sleep e = false

abbrev pub is_ending : Event → Bool
is_ending (playout_ended name) = true
is_ending e = false

-- A block of playout goes to the file, or to the callback.
abbrev pub is_output : Event → Bool
is_output (file_write b) = true
is_output (put_recorded b n) = true
is_output e = false

-- A block for the microphone comes from the file, or from the callback.
abbrev pub is_input : Event → Bool
is_input (file_read n) = true
is_input (get_played n) = true
is_input e = false

abbrev pub is_opening : Event → Bool
is_opening (open_output name) = true
is_opening (open_input name) = true
is_opening e = false

abbrev pub is_closing : Event → Bool
is_closing close_output = true
is_closing close_input = true
is_closing e = false

abbrev pub is_new_buffer : Worker → Event → Bool
is_new_buffer play_thread (new_buffer play_thread) = true
is_new_buffer rec_thread (new_buffer rec_thread) = true
is_new_buffer w e = false

abbrev pub is_delete_buffer : Worker → Event → Bool
is_delete_buffer play_thread (delete_buffer play_thread) = true
is_delete_buffer rec_thread (delete_buffer rec_thread) = true
is_delete_buffer w e = false

-- What others tell the transport with the mutex held.
abbrev pub is_setting : Event → Bool
is_setting (set_playout_sample_rate n) = true
is_setting (set_recording_sample_rate n) = true
is_setting (set_playout_channels n) = true
is_setting (set_recording_channels n) = true
is_setting e = false

abbrev pub One : (Event → Bool) → List Event → Type 0
One p (e ∷ []) = p e ≡ true
One p _ = ⊥

abbrev pub AtMostOne : (Event → Bool) → List Event → Type 0
AtMostOne p [] = Unit
AtMostOne p es = One p es

abbrev pub if_so : Bool → Event → List Event
if_so true e = e ∷ []
if_so false e = []

pub AtMostOne-if_so :
    (p : Event → Bool) (b : Bool) (e : Event) → p e ≡ true → AtMostOne p (if_so b e)
AtMostOne-if_so p true e h = h
AtMostOne-if_so p false e h = tt

abbrev pub PlayerCalls : {s t : System} → WorkerMove s t → List Event → Type 0
PlayerCalls (WorkerMove.goes_on w p) es = es ≡ []
PlayerCalls (WorkerMove.returns w p) es = es ≡ []
PlayerCalls (WorkerMove.locks w m) es = es ≡ lock ∷ []
PlayerCalls (WorkerMove.is_due w) es = es ≡ unlock ∷ []
PlayerCalls (WorkerMove.is_early w) es = es ≡ []
PlayerCalls (WorkerMove.requests w) es = (n : ℕ) × (es ≡ request_playout_data n ∷ [])
PlayerCalls (WorkerMove.relocks w m) es = es ≡ lock ∷ []
PlayerCalls (WorkerMove.transfers w) es =
    (out : List Event) × (es ≡ get_playout_data ∷ out) × AtMostOne is_output out
PlayerCalls (WorkerMove.unlocks w) es = es ≡ unlock ∷ []
PlayerCalls (WorkerMove.sleeps w) es = AtMostOne is_sleep es

abbrev pub RecorderCalls : {s t : RecSystem} → RecorderMove s t → List Event → Type 0
RecorderCalls (RecorderMove.goes_on w p) es = es ≡ []
RecorderCalls (RecorderMove.returns w p) es = es ≡ []
RecorderCalls (RecorderMove.locks w m) es = es ≡ lock ∷ []
RecorderCalls (RecorderMove.is_due w) es = es ≡ []
RecorderCalls (RecorderMove.is_early w) es = es ≡ []
RecorderCalls (RecorderMove.reads w) es = One is_input es
RecorderCalls (RecorderMove.rewinds w) es =
    (n : ℕ) × (told : List Event) × (es ≡ file_read n ∷ file_rewind ∷ told)
    × AtMostOne is_ending told
RecorderCalls (RecorderMove.ends w) es = (n : ℕ) × (es ≡ file_read n ∷ unlock ∷ [])
RecorderCalls (RecorderMove.hands w) es =
    (b : Bytes) × (n : ℕ) × (es ≡ set_recorded_buffer b n ∷ [])
RecorderCalls (RecorderMove.gives_up w) es = es ≡ unlock ∷ []
RecorderCalls (RecorderMove.delivers w) es = es ≡ deliver_recorded_data ∷ []
RecorderCalls (RecorderMove.relocks w m) es = es ≡ lock ∷ []
RecorderCalls (RecorderMove.unlocks w) es = es ≡ unlock ∷ []
RecorderCalls (RecorderMove.sleeps w) es = AtMostOne is_sleep es
RecorderCalls (RecorderMove.announces w) es = AtMostOne is_ending es

abbrev pub CallerCalls : {s t : System} → CallerMove s t → List Event → Type 0
CallerCalls (CallerMove.starts c p) es = AtMostOne (is_new_buffer play_thread) es
CallerCalls (CallerMove.launches c) es =
    (opening : List Event) × (es ≡ opening ++ (start_thread play_thread ∷ []))
    × AtMostOne is_opening opening
CallerCalls (CallerMove.fails c) es =
    (opening : List Event) × (es ≡ opening ++ (delete_buffer play_thread ∷ []))
    × One is_opening opening
CallerCalls (CallerMove.stops c) es = es ≡ []
CallerCalls (CallerMove.stop_locks c m) es = es ≡ lock ∷ []
CallerCalls (CallerMove.marks c) es = es ≡ unlock ∷ []
CallerCalls (CallerMove.joins c w) es = es ≡ stop_thread play_thread ∷ []
CallerCalls (CallerMove.joins_none c w) es = es ≡ []
CallerCalls (CallerMove.free_locks c m) es = es ≡ lock ∷ []
CallerCalls (CallerMove.frees c) es =
    (freed : List Event) × (closing : List Event) × (es ≡ freed ++ (closing ++ (unlock ∷ [])))
    × AtMostOne (is_delete_buffer play_thread) freed
    × AtMostOne is_closing closing

abbrev pub RecCallerCalls : {s t : RecSystem} → RecCallerMove s t → List Event → Type 0
RecCallerCalls (RecCallerMove.starts c p) es = AtMostOne (is_new_buffer rec_thread) es
RecCallerCalls (RecCallerMove.launches c) es =
    (opening : List Event) × (es ≡ opening ++ (start_thread rec_thread ∷ []))
    × AtMostOne is_opening opening
RecCallerCalls (RecCallerMove.fails c) es =
    (opening : List Event) × (es ≡ opening ++ (delete_buffer rec_thread ∷ []))
    × One is_opening opening
RecCallerCalls (RecCallerMove.stops c) es = es ≡ []
RecCallerCalls (RecCallerMove.stop_locks c m) es = es ≡ lock ∷ []
RecCallerCalls (RecCallerMove.marks c) es = es ≡ unlock ∷ []
RecCallerCalls (RecCallerMove.joins c w) es = es ≡ stop_thread rec_thread ∷ []
RecCallerCalls (RecCallerMove.joins_none c w) es = es ≡ []
RecCallerCalls (RecCallerMove.free_locks c m) es = es ≡ lock ∷ []
RecCallerCalls (RecCallerMove.frees c) es =
    (freed : List Event) × (closing : List Event) × (es ≡ freed ++ (closing ++ (unlock ∷ [])))
    × AtMostOne (is_delete_buffer rec_thread) freed
    × AtMostOne is_closing closing

abbrev pub Makes : {j k : Joint} → JointStep j k → List Event → Type 0
Makes (player_moves m) es = PlayerCalls m es
Makes (recorder_moves m) es = RecorderCalls m es
Makes (caller_plays idle m) es = CallerCalls m es
Makes (caller_records idle m) es = RecCallerCalls m es
Makes (others_lock e) es = es ≡ lock ∷ []
Makes (others_unlock e) es = es ≡ unlock ∷ []

-- Moves one after the other, with their calls; what others tell the transport moves nothing.
pub data JointTrace : List Event → Joint → Joint → Type 0 where
  done : {j : Joint} → JointTrace [] j j
  moves :
      {gs : List Event} {j k l : Joint} (es fs : List Event) (st : JointStep j k)
      → Makes st es
      → gs ≡ es ++ fs
      → JointTrace fs k l
      → JointTrace gs j l
  sets :
      {fs : List Event} {j l : Joint} (e : Event)
      → j.mutex ≡ by_others
      → is_setting e ≡ true
      → JointTrace fs j l
      → JointTrace (e ∷ fs) j l

pub JointTrace-append :
    {es fs : List Event} {j k l : Joint}
    → JointTrace es j k
    → JointTrace fs k l
    → JointTrace (es ++ fs) j l
JointTrace-append done s = s
JointTrace-append {fs = hs} (moves es fs st m e r) s =
    moves es (fs ++ hs) st m (ap (λ x. x ++ hs) e ∙ append_assoc es fs hs) (JointTrace-append r s)
JointTrace-append (sets e m i r) s = sets e m i (JointTrace-append r s)

-- A traced execution reaches only what the moves reach.
pub JointTrace-JointReach :
    {es : List Event} {j k : Joint} → JointReach j → JointTrace es j k → JointReach k
JointTrace-JointReach h done = h
JointTrace-JointReach h (moves es fs st m e r) = JointTrace-JointReach (later h st) r
JointTrace-JointReach h (sets e m i r) = JointTrace-JointReach h r

pub JointTrace-eq :
    {es fs : List Event} {j j' k k' : Joint}
    → JointTrace es j k
    → es ≡ fs
    → j ≡ j'
    → k ≡ k'
    → JointTrace fs j' k'
JointTrace-eq r e p q = rw (← e, ← p, ← q) r
