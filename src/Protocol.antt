-- ===== src/Protocol.antt =====
-- include/network_protocol.h and include/application_protocol.h: the messages of the two protocols.
--
-- A datagram is the bytes of the packed `afdx_packet_t`; its payload is a union, so both readings
-- of the same bytes are functions of them. Numbers are in the byte order of the machine, which is
-- taken to be little-endian, and bit fields fill a byte from its low end.
use psw_afdx.Base.{
  ℕ, ◌+◌, ◌-◌, ◌*◌, ◌/◌, ◌%◌, Option, List, [], ◌∷◌, ltb, if◌then◌else◌, get_or, get_elem?, ℤ, pos,
  negsuc, All, ◌<◌,
}

abbrev pub packet_type_unknown : ℕ
packet_type_unknown = 0

abbrev pub packet_type_adiru : ℕ
packet_type_adiru = 1

abbrev pub packet_type_engine : ℕ
packet_type_engine = 2

-- `afdx_adiru_t`.
pub record AfdxAdiru : Type 0 where
  pub airspeed : ℤ
  pub altitude : ℤ
  pub aoa : ℤ
  pub roll : ℤ
  pub pitch : ℤ
  pub yaw : ℤ

-- `afdx_engine_t`.
pub record AfdxEngine : Type 0 where
  pub engine_id : ℕ
  pub throttle : ℕ
  pub real_thrust : ℕ
  pub oil_temp : ℤ
  pub oil_press : ℤ
  pub fuel_press : ℤ
  pub flag_status : ℕ
  pub flag_reverse : ℕ
  pub flag_fire : ℕ
  pub flag_maintainance : ℕ

-- The 15 bytes of an `afdx_packet_t`.
abbrev pub AfdxPacket : Type 0
AfdxPacket = List ℕ

abbrev pub sizeof_packet : ℕ
sizeof_packet = 15

-- Each of them is a byte.
abbrev pub AreBytes : List ℕ → Type 0
AreBytes p = All (λ b. b < 256) p

abbrev pub byte_at : AfdxPacket → ℕ → ℕ
byte_at p i = get_or p i 0

-- Two's complement at 16 and 32 bits.
unfoldable pub as_int16 : ℕ → ℤ
as_int16 n = if ltb n 0x8000 then pos n else negsuc (0xffff - n)

unfoldable pub as_int32 : ℕ → ℤ
as_int32 n = if ltb n 0x8000_0000 then pos n else negsuc (0xffff_ffff - n)

-- The pattern of a number, as an unsigned one.
abbrev pub word16 : ℤ → ℕ
word16 (pos n) = n % 0x1_0000
word16 (negsuc n) = 0xffff - n % 0x1_0000

abbrev pub word32 : ℤ → ℕ
word32 (pos n) = n % 0x1_0000_0000
word32 (negsuc n) = 0xffff_ffff - n % 0x1_0000_0000

unfoldable pub int16_at : AfdxPacket → ℕ → ℤ
unfolding as_int16
int16_at p i = as_int16 (byte_at p i + 256 * byte_at p (i + 1))

unfoldable pub int32_at : AfdxPacket → ℕ → ℤ
unfolding as_int32
int32_at p i = as_int32 (
    byte_at p i
    + 256 * byte_at p (i + 1)
    + 65536 * byte_at p (i + 2)
    + 16777216 * byte_at p (i + 3))

abbrev pub identifier : AfdxPacket → ℕ
identifier p = byte_at p 0

-- `payload.adiru`, at offset 1.
unfoldable pub payload_adiru : AfdxPacket → AfdxAdiru
unfolding int16_at int32_at
payload_adiru p = record {
  airspeed = int16_at p 1;
  altitude = int32_at p 3;
  aoa = int16_at p 7;
  roll = int16_at p 9;
  pitch = int16_at p 11;
  yaw = int16_at p 13;
}

-- `payload.engine`, at offset 1; the flags share the byte at offset 10.
unfoldable pub payload_engine : AfdxPacket → AfdxEngine
unfolding int16_at
payload_engine p = record {
  engine_id = byte_at p 1;
  throttle = byte_at p 2;
  real_thrust = byte_at p 3;
  oil_temp = int16_at p 4;
  oil_press = int16_at p 6;
  fuel_press = int16_at p 8;
  flag_status = byte_at p 10 % 4;
  flag_reverse = byte_at p 10 / 4 % 2;
  flag_fire = byte_at p 10 / 8 % 2;
  flag_maintainance = byte_at p 10 / 16 % 2;
}

-- `data_id_t`.
pub data DataId : Type 0 where
  engine_throttle engine_real_thrust engine_oil_temp engine_oil_press engine_fuel_press : DataId
  engine_status engine_flags attitude_altitude attitude_roll attitude_pitch attitude_yaw : DataId
  speeds_aoa speeds_airspeed : DataId

-- The enumerators in order, so that the value of each is its index.
abbrev pub data_ids : List DataId
data_ids =
    engine_throttle ∷ engine_real_thrust ∷ engine_oil_temp ∷ engine_oil_press ∷ engine_fuel_press
    ∷ engine_status ∷ engine_flags ∷ attitude_altitude ∷ attitude_roll ∷ attitude_pitch
    ∷ attitude_yaw ∷ speeds_aoa ∷ speeds_airspeed ∷ []

-- The enumerator with a value, if there is one: a client may send any number.
unfoldable pub data_id_of : ℕ → Option DataId
data_id_of n = get_elem? data_ids n

-- `app_query_t`. Each of its unions has one member.
pub record AppQuery : Type 0 where
  pub req_id : ℕ
  pub engine_id : ℕ
  pub data_id : ℕ

-- `AFDX_MSG_TYPE_REQUEST`, `AFDX_MSG_TYPE_REGISTER` and `AFDX_MSG_TYPE_UNREGISTER`.
abbrev pub msg_type_request : ℕ
msg_type_request = 1

abbrev pub msg_type_register : ℕ
msg_type_register = 2

abbrev pub msg_type_unregister : ℕ
msg_type_unregister = 3

-- `app_msg_t`.
pub record AppMsg : Type 0 where
  pub msg_type : ℕ
  pub ms_to_update : ℕ
  pub query : AppQuery

-- `app_reply_t`. Its three unions have one member each, so they do not overlap.
pub record AppReply : Type 0 where
  pub req_id : ℕ
  pub u8 : ℕ
  pub i16 : ℤ
  pub i32 : ℤ
