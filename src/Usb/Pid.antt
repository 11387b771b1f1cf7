-- ===== src/Usb/Pid.antt =====
-- src/usb.rs: `PID`, its byte values, and tests on it.
use packetry.Base.{
  ℕ, ◌≡◌, ◌≢◌, refl, Bool, true, false, ◌&&◌, ◌||◌, List, [], ◌∷◌, arith, ◌==◌, if◌then◌else◌,
}

-- `PID`. `token_in`, `token_out` and `err_pid` are IN, OUT and ERR.
pub data Pid : Type 0 where
  rsvd token_out ack data0 ping sof nyet data2 split token_in nak data1 err_pid setup : Pid
  stall mdata malformed : Pid

-- The discriminants, `pid as u8`.
abbrev pub to_byte : Pid → ℕ
to_byte rsvd = 0xf0
to_byte token_out = 0xe1
to_byte ack = 0xd2
to_byte data0 = 0xc3
to_byte ping = 0xb4
to_byte sof = 0xa5
to_byte nyet = 0x96
to_byte data2 = 0x87
to_byte split = 0x78
to_byte token_in = 0x69
to_byte nak = 0x5a
to_byte data1 = 0x4b
to_byte err_pid = 0x3c
to_byte setup = 0x2d
to_byte stall = 0x1e
to_byte mdata = 0x0f
to_byte malformed = 0

-- `PID::from(u8)`: any byte that is not a discriminant is `Malformed`, the default.
unfoldable pub from_byte : ℕ → Pid
from_byte b =
    if b == 0xf0
    then rsvd
    else if b == 0xe1
    then token_out
    else if b == 0xd2
    then ack
    else if b == 0xc3
    then data0
    else if b == 0xb4
    then ping
    else if b == 0xa5
    then sof
    else if b == 0x96
    then nyet
    else if b == 0x87
    then data2
    else if b == 0x78
    then split
    else if b == 0x69
    then token_in
    else if b == 0x5a
    then nak
    else if b == 0x4b
    then data1
    else if b == 0x3c
    then err_pid
    else if b == 0x2d
    then setup
    else if b == 0x1e
    then stall
    else if b == 0x0f
    then mdata
    else malformed

-- `==` on `PID` (derived).
abbrev pub eq_pid : Pid → Pid → Bool
eq_pid p q = to_byte p == to_byte q

-- A pattern `A | B | …` of the source.
abbrev pub is_any : Pid → List Pid → Bool
is_any p [] = false
is_any p (q ∷ qs) = eq_pid p q || is_any p qs

pub from_byte-to_byte : (p : Pid) → from_byte (to_byte p) ≡ p
unfolding from_byte
from_byte-to_byte rsvd = refl
from_byte-to_byte _ = refl

-- Each byte with an identifier is that identifier's byte.
pub from_byte_inv : (b : ℕ) → from_byte b ≢ malformed → b ≡ to_byte (from_byte b)
unfolding from_byte
from_byte_inv b h = ground arith

pub eq_pid_sound : (p q : Pid) → eq_pid p q ≡ true → p ≡ q
eq_pid_sound p q h = cc (from_byte-to_byte p, from_byte-to_byte q, lem)
  where
    lem : from_byte (to_byte p) ≡ from_byte (to_byte q)
    lem = ground arith

-- A test that holds at every identifier.
unfoldable pub all_pids : (Pid → Bool) → Bool
all_pids p =
    p rsvd
    && p token_out
    && p ack
    && p data0
    && p ping
    && p sof
    && p nyet
    && p data2
    && p split
    && p token_in
    && p nak
    && p data1
    && p err_pid
    && p setup
    && p stall
    && p mdata
    && p malformed

and_left : (a b : Bool) → (a && b) ≡ true → a ≡ true
and_left a b h = ground arith

and_right : (a b : Bool) → (a && b) ≡ true → b ≡ true
and_right a b h = ground arith

pub all_pids_sound : (p : Pid → Bool) → all_pids p ≡ true → (x : Pid) → p x ≡ true
unfolding all_pids
all_pids_sound p h rsvd = ground arith
all_pids_sound p h _ = ground arith
