-- ===== src/Bindings/Reprs.antt =====
-- Reading the texts of src/tgcalls.cpp back, piece by piece between the quotes.
use mqtgcalls.Prelude.{
  ℕ, Bytes, Bool, true, false, List, [], ◌∷◌, ◌++◌, ◌≡◌, refl, ℤ, arith, ◌==◌, if◌then◌else◌, ◌≢◌,
}
use mqtgcalls.RtcServer.{RtcServer}
use mqtgcalls.Bindings.{quote, show_bool, rtc_server_repr, AudioDevice, audio_device_repr}

-- A text cut at its quotes.
push_first : ℕ → List Bytes → List Bytes
push_first c [] = (c ∷ []) ∷ []
push_first c (x ∷ xs) = (c ∷ x) ∷ xs

unfoldable pub cut : Bytes → List Bytes
unfolding push_first
cut [] = [] ∷ []
cut (c ∷ cs) = if c == quote then [] ∷ cut cs else push_first c (cut cs)

-- Every second piece stood between quotes.
abbrev pub seconds : List Bytes → List Bytes
seconds [] = []
seconds (a ∷ []) = []
seconds (a ∷ b ∷ xs) = b ∷ seconds xs

-- The values of a text, in order.
abbrev pub values : Bytes → List Bytes
values text = seconds (cut text)

abbrev pub QuoteFree : Bytes → Type 0
QuoteFree [] = Unit
QuoteFree (c ∷ cs) = (c ≢ quote) × QuoteFree cs

cut-append : (a rest : Bytes) → QuoteFree a → cut (a ++ (quote ∷ rest)) ≡ a ∷ cut rest
unfolding cut
cut-append [] rest free = refl
cut-append (c ∷ cs) rest free = ground (arith, cut-append cs rest free.1)

show_bool-QuoteFree : (b : Bool) → QuoteFree (show_bool b)
show_bool-QuoteFree true = omega arith
show_bool-QuoteFree false = omega arith

-- The pieces between the quotes of the text of an audio device are its name and its unique id, in
-- order, if these have no quote in them.
pub values-audio_device_repr :
    (e : AudioDevice)
    → QuoteFree e.name
    → QuoteFree e.guid
    → values (audio_device_repr e) ≡ e.name ∷ e.guid ∷ []
unfolding audio_device_repr cut
values-audio_device_repr e name guid = rw (cut-append e.name _ name, cut-append e.guid _ guid)

-- The pieces between the quotes of the text of a server are its address, IPv6 address, port,
-- login, password and its two flags, in order, if the strings and the printed port have no quote
-- in them.
pub values-rtc_server_repr :
    (show_int : ℤ → Bytes) (e : RtcServer)
    → QuoteFree (show_int e.port)
    → QuoteFree e.ip
    → QuoteFree e.ipv6
    → QuoteFree e.login
    → QuoteFree e.password
    → values (rtc_server_repr show_int e)
      ≡ e.ip
        ∷ e.ipv6
        ∷ show_int e.port
        ∷ e.login
        ∷ e.password
        ∷ show_bool e.is_turn
        ∷ show_bool e.is_stun
        ∷ []
unfolding rtc_server_repr cut
values-rtc_server_repr show_int e port ip ipv6 login password = rw (
  cut-append e.ip _ ip,
  cut-append e.ipv6 _ ipv6,
  cut-append (show_int e.port) _ port,
  cut-append e.login _ login,
  cut-append e.password _ password,
  cut-append (show_bool e.is_turn) _ (show_bool-QuoteFree e.is_turn),
  cut-append (show_bool e.is_stun) _ (show_bool-QuoteFree e.is_stun),
)
