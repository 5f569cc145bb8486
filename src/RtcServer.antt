-- ===== src/RtcServer.antt =====
-- src/RtcServer.cpp and src/RtcServer.h, and the loop over the servers in `NativeInstance::startCall`
-- (src/NativeInstance.cpp).
pub mod Servers
use mqtgcalls.Prelude.{
  ℕ, ◌-◌, ◌%◌, ◌^◌, Bytes, Bool, true, false, List, [], ◌∷◌, ◌++◌, ℤ, pos, negsuc, if◌then◌else◌,
}

-- `isTurn` and `isStun` say for which of the two uses a server is offered.
pub record RtcServer : Type 0 where
  pub ip : Bytes
  pub ipv6 : Bytes
  pub port : ℤ
  pub login : Bytes
  pub password : Bytes
  pub is_turn : Bool
  pub is_stun : Bool

-- `tgcalls::RtcServer`, a struct of the library.
pub record Endpoint : Type 0 where
  pub host : Bytes
  pub port : ℕ  -- uint16_t
  pub login : Bytes
  pub password : Bytes
  pub is_turn : Bool

-- `static_cast<uint16_t>` of an `int`: modulo 2^16, also below zero.
unfoldable pub to_uint16 : ℤ → ℕ
to_uint16 (pos n) = n % 2 ^ 16
to_uint16 (negsuc n) = 2 ^ 16 - 1 - n % 2 ^ 16

unfoldable pub to_tgcalls : RtcServer → (as_ipv6 support_turn : Bool) → Endpoint
to_tgcalls s as_ipv6 support_turn = record {
  host = if as_ipv6 then s.ipv6 else s.ip;
  port = to_uint16 s.port;
  login = if support_turn then s.login else [];
  password = if support_turn then s.password else [];
  is_turn = support_turn;
}

-- `pushStun` and `pushTurn`: `push_back` on the servers so far.
push_stun : List Endpoint → ℕ → Bytes → List Endpoint
push_stun servers port host =
    servers
    ++ (record { host = host; port = port; login = []; password = []; is_turn = false } ∷ [])

push_turn : List Endpoint → ℕ → (username password : Bytes) → Bytes → List Endpoint
push_turn servers port username password host =
    servers
    ++ (record { host = host; port = port; login = username; password = password; is_turn = true }
        ∷ [])

-- One round of the loop of `startCall`.
unfoldable pub add_server : List Endpoint → RtcServer → List Endpoint
unfolding push_stun push_turn
add_server servers s =
    let port = to_uint16 s.port in
    let stun = if s.is_stun then push_stun (push_stun servers port s.ip) port s.ipv6 else servers in
    if s.is_turn
    then push_turn (push_turn stun port s.login s.password s.ip) port s.login s.password s.ipv6
    else stun

unfoldable pub add_servers : List Endpoint → List RtcServer → List Endpoint
add_servers servers [] = servers
add_servers servers (s ∷ ss) = add_servers (add_server servers s) ss
