-- ===== src/Protocol/Types/MessageType.antt =====
-- `MessageType` of crates/protocol/src/types.rs.
use zeroio.Common.{ℕ, String, Bool, true, Option, none, some, ◌==◌, if◌then◌else◌, ◌≡◌, arith, ◌<◌}

pub data MessageType : Type 0 where
  join request response notification broadcast publish subscribe unsubscribe : MessageType

unfoldable pub from_u8 : ℕ → Option MessageType
from_u8 value =
    if value == 0
    then some join
    else if value == 1
    then some request
    else if value == 2
    then some response
    else if value == 3
    then some notification
    else if value == 4
    then some broadcast
    else if value == 5
    then some publish
    else if value == 6
    then some subscribe
    else if value == 7
    then some unsubscribe
    else none

unfoldable pub to_u8 : MessageType → ℕ
to_u8 join = 0
to_u8 request = 1
to_u8 response = 2
to_u8 notification = 3
to_u8 broadcast = 4
to_u8 publish = 5
to_u8 subscribe = 6
to_u8 unsubscribe = 7

abbrev pub as_str : MessageType → String
as_str join = "JOIN"
as_str request = "REQ"
as_str response = "REP"
as_str notification = "NOTIF"
as_str broadcast = "BCAST"
as_str publish = "PUB"
as_str subscribe = "SUB"
as_str unsubscribe = "UNSUB"

-- The derived `==`.
abbrev pub is_request : MessageType → Bool
unfolding to_u8
is_request t = to_u8 t == 1

pub from_u8-to_u8 : (t : MessageType) → from_u8 (to_u8 t) ≡ some t
unfolding from_u8 to_u8
from_u8-to_u8 t = ground arith

pub to_u8_of_from_u8 : (v : ℕ) (t : MessageType) → from_u8 v ≡ some t → to_u8 t ≡ v
unfolding from_u8 to_u8
to_u8_of_from_u8 v t h = ground arith

pub to_u8-lt : (t : MessageType) → to_u8 t < 8
unfolding to_u8
to_u8-lt t = ground arith

-- A byte is a message type exactly when it is below 8.
pub from_u8-none : (v : ℕ) → from_u8 v ≡ none → 7 < v
unfolding from_u8
from_u8-none v h = ground arith

pub is_request→eq : (t : MessageType) → is_request t ≡ true → t ≡ request
unfolding to_u8
is_request→eq t h = ground arith
