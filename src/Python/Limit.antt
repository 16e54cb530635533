-- ===== src/Python/Limit.antt =====
-- Limits in Python: sakai-python/src/linux/limit.rs. A Python quantity is the quantity that it wraps.
use sakai.Base.{ok_or, Bool, true, false, Option, none, some}
use sakai.Python.Errors.{value_error, PyResult, new_err}
use sakai.Unit.{
  Time, Bytes, BytesPerSecond, OperationsPerSecond, Count, NonZeroTime, MaxOr, max_token, value,
  Float,
}

module _ (f : Float) where
  pub data PythonLimitValue : Type 0 where
    time : Time → PythonLimitValue
    bytes : Bytes → PythonLimitValue
    count : Count → PythonLimitValue
    bandwidth : BytesPerSecond → PythonLimitValue
    operations : OperationsPerSecond → PythonLimitValue
    ratio : f.Ratio → PythonLimitValue

  -- The value that a limit holds, or none for `max`.
  pub record PythonMaxOr : Type 0 where
    pub inner : Option PythonLimitValue

module _ {f : Float} where
  module _ {T : Type 0} where
    -- `MaxOr::from_value`
    unfoldable pub from_value : MaxOr T → (T → PythonLimitValue f) → PythonMaxOr f
    from_value max_token convert = record { inner = none }
    from_value (value x) convert = record { inner = some (convert x) }

  -- `MaxOr::from_time`
  unfoldable pub from_time : MaxOr NonZeroTime → PythonMaxOr f
  unfolding from_value
  from_time limit = from_value limit (λ t. PythonLimitValue.time t.time)

  -- `MaxOr::from_bytes`
  unfoldable pub from_bytes : MaxOr Bytes → PythonMaxOr f
  unfolding from_value
  from_bytes limit = from_value limit PythonLimitValue.bytes

  -- `MaxOr::from_ratio`
  unfoldable pub from_ratio : MaxOr f.Ratio → PythonMaxOr f
  unfolding from_value
  from_ratio limit = from_value limit PythonLimitValue.ratio

  -- `MaxOr::from_count`
  unfoldable pub from_count : MaxOr Count → PythonMaxOr f
  unfolding from_value
  from_count limit = from_value limit PythonLimitValue.count

module _ {f : Float} (limit : PythonMaxOr f) where
  -- `MaxOr::is_max`
  unfoldable pub is_max : Bool
  is_max = elim limit.inner [ none ↦ true | some v ↦ false ]

  -- `MaxOr::value`
  unfoldable pub limit_value : PyResult (PythonLimitValue f)
  limit_value = ok_or limit.inner (new_err value_error)
