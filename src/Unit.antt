-- ===== src/Unit.antt =====
-- The quantities of sakai/src/unit.rs and sakai/src/limit.rs. A quantity is the integer that it
-- stores in its base unit, as the comments of that file state; `uom` itself is not modelled.
use sakai.Base.{◌==◌, if◌then◌else◌, Result, ℕ, Bool, Option, none, some}
use sakai.Error.{FloatErrorKind}
use sakai.Str.{Str}

pub record Time : Type 0 where
  pub nanoseconds : ℕ

pub record Bytes : Type 0 where
  pub bytes : ℕ

pub record BytesPerSecond : Type 0 where
  pub bytes_per_second : ℕ

pub record OperationsPerSecond : Type 0 where
  pub hertz : ℕ

pub record Count : Type 0 where
  pub count : ℕ

pub record Pages : Type 0 where
  pub pages : ℕ

pub record NonZeroTime : Type 0 where
  pub time : Time

-- `NonZeroTime::try_new`, by the predicate of its declaration.
unfoldable pub try_new_time : Time → Option NonZeroTime
try_new_time t = if t.nanoseconds == 0 then none else some (record { time = t })

pub data MaxOr {ℓ} (T : Type ℓ) : Type ℓ where
  max_token : MaxOr T
  value : T → MaxOr T

-- `f64` and the ratios that `uom` builds of it: the type and what the crate does with it.
pub record Float : Type 1 where
  pub F64 : Type 0
  pub Ratio : Type 0
  pub parse_float : Str → Result FloatErrorKind F64
  pub is_finite : F64 → Bool
  pub le_float : F64 → F64 → Bool
  pub from_nat : ℕ → F64
  pub div_float : F64 → F64 → F64
  pub percent : F64 → Ratio
  pub ratio : F64 → Ratio
