-- ===== src/Python/Snapshots/Pressure.antt =====
-- The pressure of the bindings: sakai-python/src/linux/pressure.rs.
use sakai.Base.{Option}
use sakai.Unit.{Time, Float}
use sakai.Pressure.{PressureLine, Pressure}
use mathlib.Core.Option

pub record PythonPressureLine (f : Float) : Type 0 where
  pub avg10 : f.Ratio
  pub avg60 : f.Ratio
  pub avg300 : f.Ratio
  pub total : Time

-- `From<CorePressureLine> for PressureLine`
unfoldable pub from_pressure_line : {f : Float} → PressureLine f → PythonPressureLine f
from_pressure_line v = record {
  avg10 = v.avg10;
  avg60 = v.avg60;
  avg300 = v.avg300;
  total = v.total;
}

pub record PythonPressure (f : Float) : Type 0 where
  pub some_line : PythonPressureLine f
  pub full : Option (PythonPressureLine f)

-- `From<CorePressure> for Pressure`
unfoldable pub from_pressure : {f : Float} → Pressure f → PythonPressure f
unfolding from_pressure_line
from_pressure v = record {
  some_line = from_pressure_line v.some_line;
  full = Option.map from_pressure_line v.full;
}
