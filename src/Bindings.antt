-- ===== src/Bindings.antt =====
-- src/tgcalls.cpp: the texts that Python shows for the bound objects (`__repr__`), their attributes
-- (`Attributes`, `Classes`) and the methods of `NativeInstance` by name (`Dispatch`). pybind11 itself,
-- with its conversions, is an interface (`Casters`).
pub mod Reprs
pub mod Casters
pub mod Attributes
pub mod Classes
pub mod Copies
pub mod Dispatch
pub mod Spelling
pub mod Calls
use mqtgcalls.Prelude.{ℕ, Bytes, Bool, true, false, List, [], ◌∷◌, ◌++◌, ℤ, pos, codes}
use mqtgcalls.RtcServer.{RtcServer}

abbrev pub quote : ℕ
quote = b'"'

-- `name="value"` and what follows.
abbrev pub attribute : Bytes → Bytes → Bytes → Bytes
attribute name value rest = name ++ (codes "=" ++ (quote ∷ (value ++ (quote ∷ rest))))

-- A `bool` on a stream.
abbrev pub show_bool : Bool → Bytes
show_bool true = codes "1"
show_bool false = codes "0"

-- `show_int` is how a stream prints an `int`.
unfoldable pub rtc_server_repr : (ℤ → Bytes) → RtcServer → Bytes
rtc_server_repr show_int e =
    codes "<tgcalls.RtcServer "
    ++ attribute (codes "ip") e.ip (
        codes " "
        ++ attribute (codes "ipv6") e.ipv6 (
            codes " "
            ++ attribute (codes "port") (show_int e.port) (
                codes " "
                ++ attribute (codes "login") e.login (
                    codes " "
                    ++ attribute (codes "password") e.password (
                        codes " "
                        ++ attribute (codes "isTurn") (show_bool e.is_turn) (
                            codes " "
                            ++ attribute (codes "isStun") (show_bool e.is_stun) (codes ">")))))))

-- `tgcalls::GroupJoinPayload` and `AudioDevice`, structs of the library.
pub record GroupJoinPayload : Type 0 where
  pub audio_ssrc : ℕ  -- uint32_t
  pub json : Bytes

pub record AudioDevice : Type 0 where
  pub name : Bytes
  pub guid : Bytes

unfoldable pub group_join_payload_repr : (ℤ → Bytes) → GroupJoinPayload → Bytes
group_join_payload_repr show_int e =
    codes "<tgcalls.GroupJoinPayload "
    ++ attribute (codes "audioSsrc") (show_int (pos e.audio_ssrc))
        (codes " " ++ attribute (codes "json") e.json (codes "> "))

unfoldable pub audio_device_repr : AudioDevice → Bytes
audio_device_repr e =
    codes "<tgcalls.AudioDevice "
    ++ attribute (codes "name") e.name (codes " " ++ attribute (codes "guid") e.guid (codes "> "))
