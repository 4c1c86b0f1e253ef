-- ===== src/Generator.antt =====
-- src/UDP_generator.c: the program that sends test datagrams to the daemon. What the variables on the
-- stack and the system calls give is an argument.
pub mod Encode
pub mod Sound
pub mod Sends
pub mod Received
mod Tests
use psw_afdx.Base.{
  ℕ, zero, suc, ◌+◌, ◌-◌, ◌*◌, ◌/◌, ◌%◌, Bool, true, false, ◌||◌, Option, none, some, List, [], ◌∷◌,
  ◌==◌, if◌then◌else◌, ℤ, pos, negsuc, is_negative, get_or,
}
use psw_afdx.Protocol.{
  AfdxPacket, AfdxAdiru, AfdxEngine, packet_type_unknown, packet_type_adiru, packet_type_engine,
  byte_at, word16, word32,
}

-- `NUM_PACKETS`.
abbrev pub num_packets : ℕ
num_packets = 20

-- The bytes from an index on.
abbrev pub drop : ℕ → List ℕ → List ℕ
drop zero p = p
drop (suc n) [] = []
drop (suc n) (b ∷ p) = drop n p

-- The bytes of a packet after `identifier` has been assigned.
unfoldable pub set_unknown : AfdxPacket → AfdxPacket
set_unknown p = packet_type_unknown ∷ drop 1 p

-- The bytes of a packet after `identifier` and the fields of `payload.adiru` have been assigned.
unfoldable pub set_adiru : AfdxPacket → AfdxAdiru → AfdxPacket
set_adiru p a =
    packet_type_adiru
    ∷ word16 a.airspeed % 256
    ∷ word16 a.airspeed / 256
    ∷ word32 a.altitude % 256
    ∷ word32 a.altitude / 256 % 256
    ∷ word32 a.altitude / 65536 % 256
    ∷ word32 a.altitude / 16777216
    ∷ word16 a.aoa % 256
    ∷ word16 a.aoa / 256
    ∷ word16 a.roll % 256
    ∷ word16 a.roll / 256
    ∷ word16 a.pitch % 256
    ∷ word16 a.pitch / 256
    ∷ word16 a.yaw % 256
    ∷ word16 a.yaw / 256
    ∷ drop 15 p

-- The byte of the flags, of which the three bits above them stay.
abbrev pub flags_byte : AfdxEngine → ℕ → ℕ
flags_byte e old =
    e.flag_status % 4
    + e.flag_reverse % 2 * 4
    + e.flag_fire % 2 * 8
    + e.flag_maintainance % 2 * 16
    + old % 256 / 32 * 32

-- The same for `payload.engine`; the bytes behind the flags stay.
unfoldable pub set_engine : AfdxPacket → AfdxEngine → AfdxPacket
set_engine p e =
    packet_type_engine
    ∷ e.engine_id % 256
    ∷ e.throttle % 256
    ∷ e.real_thrust % 256
    ∷ word16 e.oil_temp % 256
    ∷ word16 e.oil_temp / 256
    ∷ word16 e.oil_press % 256
    ∷ word16 e.oil_press / 256
    ∷ word16 e.fuel_press % 256
    ∷ word16 e.fuel_press / 256
    ∷ flags_byte e (byte_at p 10)
    ∷ drop 11 p

-- `engine_id` and `general_flag`.
pub record Vars : Type 0 where
  pub engine_id : ℕ
  pub general_flag : ℕ

abbrev pub start_vars : Vars
start_vars = record { engine_id = 0; general_flag = 0 }

-- `!`.
abbrev pub lnot : ℕ → ℕ
lnot n = if n == 0 then 1 else 0

abbrev pub adiru_example : ℕ → AfdxAdiru
adiru_example i = record {
  airspeed = pos (20 + 5 * i);
  altitude = pos (3000 + 100 * i);
  aoa = pos (15 + i);
  roll = pos (5 + i);
  pitch = pos (3 + 2 * i);
  yaw = pos (1 + 3 * i);
}

abbrev pub engine_example : ℕ → Vars → AfdxEngine
engine_example i v = record {
  engine_id = v.engine_id;
  throttle = 10 + i;
  real_thrust = 5 + 2 * i;
  oil_temp = pos (40 + 10 * i);
  oil_press = pos (20 + 5 * i);
  fuel_press = pos (30 + 4 * i);
  flag_status = v.engine_id;
  flag_reverse = v.general_flag;
  flag_fire = lnot v.general_flag;
  flag_maintainance = v.general_flag;
}

-- The variables after an engine packet.
abbrev pub next_vars : Vars → Vars
next_vars v = record {
  engine_id = if v.engine_id + 1 == 4 then 0 else v.engine_id + 1;
  general_flag = lnot v.general_flag;
}

-- A round of the loop that fills `net_packets`; `p` is what the element holds.
unfoldable pub fill_packet : ℕ → Vars → AfdxPacket → AfdxPacket × Vars
unfolding set_unknown set_adiru set_engine
fill_packet i v p =
    if (i == 3) || (i == 8) || (i == 11) || (i == 16)
    then (set_unknown p, v)
    else if (i + 2) % 2 == 0
    then (set_engine p (engine_example i v), next_vars v)
    else (set_adiru p (adiru_example i), v)

-- The loop, from the element `i` on, over the elements that are left.
unfoldable pub fill_packets : ℕ → Vars → List AfdxPacket → List AfdxPacket
unfolding fill_packet
fill_packets i v [] = []
fill_packets i v (p ∷ ps) = let (q, v') = fill_packet i v p in q ∷ fill_packets (i + 1) v' ps

-- The loop that sends the packets: those that it has sent, and whether it has come to its end. The
-- results of `sendto` are given by the index.
abbrev pub send_packets : ℕ → (ℕ → ℤ) → List AfdxPacket → List AfdxPacket × Bool
send_packets i data_sent [] = ([], true)
send_packets i data_sent (p ∷ ps) =
    let rest = send_packets (i + 1) data_sent ps in
    if is_negative (data_sent i) then ([], false) else (p ∷ rest.0, rest.1)

-- The results of the system calls.
pub record Answers : Type 0 where
  pub src_sock : ℤ
  pub broadcast : ℤ
  pub data_sent : ℕ → ℤ
  pub closed : ℤ

-- The datagrams that `main` sends, and the status with which it exits.
pub record Outcome : Type 0 where
  pub datagrams : List AfdxPacket
  pub status : ℕ

-- `main`, where `junk` is what the array `net_packets` holds at first.
unfoldable pub main : Answers → List AfdxPacket → Outcome
unfolding fill_packets
main a junk =
    if is_negative a.src_sock
    then record { datagrams = []; status = 1 }
    else if is_negative a.broadcast
    then record { datagrams = []; status = 1 }
    else let (datagrams, complete) = send_packets 0 a.data_sent (fill_packets 0 start_vars junk) in
      record {
        datagrams = datagrams;
        status = if complete then (if is_negative a.closed then 1 else 0) else 1;
      }
