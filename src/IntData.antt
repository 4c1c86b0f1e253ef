-- ===== src/IntData.antt =====
-- include/internal_data.h and the variable `intdata` of src/afdx.c: the last known state of the
-- aircraft, which the elaboration thread writes and the application manager reads.
use psw_afdx.Base.{ℕ, ◌<◌, ◌≡◌, List, [], ◌∷◌, length, All, ℤ, pos, negsuc}

-- `NR_ENGINES`.
abbrev pub nr_engines : ℕ
nr_engines = 4

-- `engine_status_t`.
pub data EngineStatus : Type 0 where
  stop starting running shutdown_in_progress : EngineStatus

-- The value of each enumerator.
unfoldable pub status_value : EngineStatus → ℕ
status_value stop = 0
status_value starting = 1
status_value running = 2
status_value shutdown_in_progress = 3

-- `intdata_engine_t`.
pub record IntdataEngine : Type 0 where
  pub last_update : ℕ
  pub throttle : ℕ
  pub real_thrust : ℕ
  pub oil_temp : ℤ
  pub oil_press : ℤ
  pub fuel_press : ℤ
  pub status : EngineStatus
  pub engine_flags : ℕ

-- `intdata_attitude_t`.
pub record IntdataAttitude : Type 0 where
  pub last_update : ℕ
  pub altitude : ℤ
  pub roll : ℤ
  pub pitch : ℤ
  pub yaw : ℤ

-- `intdata_speeds_t`.
pub record IntdataSpeeds : Type 0 where
  pub last_update : ℕ
  pub aoa : ℤ
  pub airspeed : ℤ

-- `intdata_t`. The array is a list; that it holds `nr_engines` elements is part of `IsValid`.
pub record IntData : Type 0 where
  pub engines : List IntdataEngine
  pub attitude : IntdataAttitude
  pub speeds : IntdataSpeeds

-- `intdata` when `main` has run its first loop: static storage is zero, and zero times are stored.
abbrev pub blank_engine : IntdataEngine
blank_engine = record {
  last_update = 0;
  throttle = 0;
  real_thrust = 0;
  oil_temp = pos 0;
  oil_press = pos 0;
  fuel_press = pos 0;
  status = stop;
  engine_flags = 0;
}

abbrev pub initial_intdata : IntData
initial_intdata = record {
  engines = blank_engine ∷ blank_engine ∷ blank_engine ∷ blank_engine ∷ [];
  attitude = record { last_update = 0; altitude = pos 0; roll = pos 0; pitch = pos 0; yaw = pos 0 };
  speeds = record { last_update = 0; aoa = pos 0; airspeed = pos 0 };
}

-- The values of a two's complement type whose largest value is `m - 1`.
abbrev pub Fits : ℕ → ℤ → Type 0
Fits m (pos n) = n < m
Fits m (negsuc n) = n < m

abbrev pub IsInt16 : ℤ → Type 0
IsInt16 = Fits 0x8000

abbrev pub IsInt32 : ℤ → Type 0
IsInt32 = Fits 0x8000_0000

-- Every field fits its C type, and the flags are a combination of the three defined bits.
pub record IsValidEngine (e : IntdataEngine) : Type 0 where
  pub throttle : e.throttle < 256
  pub real_thrust : e.real_thrust < 256
  pub oil_temp : IsInt16 e.oil_temp
  pub oil_press : IsInt16 e.oil_press
  pub fuel_press : IsInt16 e.fuel_press
  pub engine_flags : e.engine_flags < 8

pub record IsValid (d : IntData) : Type 0 where
  pub count : length d.engines ≡ nr_engines
  pub engines : All IsValidEngine d.engines
  pub altitude : IsInt32 d.attitude.altitude
  pub roll : IsInt16 d.attitude.roll
  pub pitch : IsInt16 d.attitude.pitch
  pub yaw : IsInt16 d.attitude.yaw
  pub aoa : IsInt16 d.speeds.aoa
  pub airspeed : IsInt16 d.speeds.airspeed
