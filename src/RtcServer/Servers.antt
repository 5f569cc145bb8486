-- ===== src/RtcServer/Servers.antt =====
-- The list of servers that a call is given.
use mathlib.Core.List.{append_assoc, append-nil}
use mqtgcalls.Prelude.{
  ℕ, ◌^◌, ◌<◌, Bool, true, false, List, [], ◌∷◌, ◌++◌, ◌≡◌, sym, ℤ, pos, negsuc, arith,
  if◌then◌else◌,
}
use mqtgcalls.RtcServer.{RtcServer, Endpoint, to_uint16, to_tgcalls, add_server, add_servers}

-- Both addresses of a server for each of its uses, as `toTgcalls` converts them.
abbrev pub endpoints : RtcServer → List Endpoint
endpoints s =
    (if s.is_stun then to_tgcalls s false false ∷ to_tgcalls s true false ∷ [] else [])
    ++ (if s.is_turn then to_tgcalls s false true ∷ to_tgcalls s true true ∷ [] else [])

abbrev pub all_endpoints : List RtcServer → List Endpoint
all_endpoints [] = []
all_endpoints (s ∷ ss) = endpoints s ++ all_endpoints ss

-- Two pushes for each of two tests.
pushes :
    (stun turn : Bool) (servers : List Endpoint) (a b c d : Endpoint)
    → (let first = if stun then (servers ++ (a ∷ [])) ++ (b ∷ []) else servers in
        if turn then (first ++ (c ∷ [])) ++ (d ∷ []) else first)
      ≡ servers ++ ((if stun then a ∷ b ∷ [] else []) ++ (if turn then c ∷ d ∷ [] else []))
pushes true true servers a b c d = simp append_assoc
pushes true false servers a b c d = simp append_assoc
pushes false true servers a b c d = simp append_assoc
pushes false false servers a b c d = sym (append-nil servers)

add_server_lem :
    (servers : List Endpoint) (s : RtcServer) → add_server servers s ≡ servers ++ endpoints s
unfolding add_server to_tgcalls
add_server_lem servers s =
    pushes s.is_stun s.is_turn servers (to_tgcalls s false false) (to_tgcalls s true false)
      (to_tgcalls s false true) (to_tgcalls s true true)

-- The loop of startCall appends to the servers so far, for each server in order, both its
-- addresses as toTgcalls converts them without TURN if it is a STUN server, and then both with
-- TURN if it is a TURN server, and nothing else.
pub add_servers_lem :
    (servers : List Endpoint) (ss : List RtcServer)
    → add_servers servers ss ≡ servers ++ all_endpoints ss
unfolding add_servers
add_servers_lem servers [] = sym (append-nil servers)
add_servers_lem servers (s ∷ ss) =
    rw (add_servers_lem (add_server servers s) ss, add_server_lem servers s)
      (append_assoc servers (endpoints s) (all_endpoints ss))

-- The port of an endpoint is a 16-bit number, and that of the server if it was one.
to_uint16-lt : (i : ℤ) → to_uint16 i < 2 ^ 16
unfolding to_uint16
to_uint16-lt (pos n) = omega arith
to_uint16-lt (negsuc n) = omega arith

to_uint16_pos : (n : ℕ) → n < 2 ^ 16 → to_uint16 (pos n) ≡ n
unfolding to_uint16
to_uint16_pos n h = omega arith
