-- ===== src/Io/Cost.antt =====
-- `io.cost.qos`, `io.cost.model` and `io.prio.class`: sakai/src/cgroup/v2/io/cost.rs and
-- priority.rs.
use sakai.Base.{if◌then◌else◌, is_empty, ok, err, ◌>>=◌, ok_or, Bool, List, [], ◌∷◌}
use sakai.BTreeMap.{BTreeMap}
use sakai.Decode.{Decoder, parse_boolean, parse_microseconds, percent_within, parse_percent}
use sakai.Error.{out_of_range, missing, invalid, Parsed}
use sakai.Io.Device.{parse_device_lines}
use sakai.Io.Device.Order.{Device, device_ord}
use sakai.Io.Weights.{parse_bandwidth, parse_iops}
use sakai.Parse.{KeyedFields, required}
use sakai.Str.{Str, codes, str_eq, is_whitespace, trim}
use sakai.Strum.{from_name}
use sakai.Unit.{Time, BytesPerSecond, OperationsPerSecond, Float}

pub data IoCostControl : Type 0 where
  auto user : IoCostControl

unfoldable pub control_name : IoCostControl → Str
control_name auto = codes "auto"
control_name user = codes "user"

unfoldable pub decode_control : Decoder IoCostControl
unfolding from_name control_name
decode_control text = ok_or (from_name control_name (auto ∷ user ∷ []) text) out_of_range

pub data IoCostModelName : Type 0 where
  linear : IoCostModelName

-- `Display`
unfoldable pub model_name : IoCostModelName → Str
model_name linear = codes "linear"

unfoldable pub decode_model_name : Decoder IoCostModelName
unfolding str_eq
decode_model_name text = if str_eq (codes "linear") text then ok linear else err out_of_range

module _ (f : Float) where
  -- `ParseScalingPercent`: from 1 to 10000 percent.
  unfoldable pub parse_scaling_percent : Decoder f.Ratio
  unfolding percent_within
  parse_scaling_percent = percent_within f 1 10000

  pub record IoDeviceCostQos : Type 0 where
    pub enabled : Bool
    pub control : IoCostControl
    pub read_percentile : f.Ratio
    pub read_latency : Time
    pub write_percentile : f.Ratio
    pub write_latency : Time
    pub min_scaling : f.Ratio
    pub max_scaling : f.Ratio

  -- `IoDeviceCostQos::from_fields`
  unfoldable pub device_cost_qos : KeyedFields → Parsed IoDeviceCostQos
  unfolding required parse_boolean decode_control parse_percent parse_microseconds
      parse_scaling_percent
  device_cost_qos fields = do
    enable ← required parse_boolean fields (codes "enable")
    ctrl ← required decode_control fields (codes "ctrl")
    rpct ← required (parse_percent f) fields (codes "rpct")
    rlat ← required parse_microseconds fields (codes "rlat")
    wpct ← required (parse_percent f) fields (codes "wpct")
    wlat ← required parse_microseconds fields (codes "wlat")
    least ← required parse_scaling_percent fields (codes "min")
    most ← required parse_scaling_percent fields (codes "max")
    ok (record {
      enabled = enable;
      control = ctrl;
      read_percentile = rpct;
      read_latency = rlat;
      write_percentile = wpct;
      write_latency = wlat;
      min_scaling = least;
      max_scaling = most;
    })

  -- `FromStr for IoCostQos`
  unfoldable pub parse_io_cost_qos : Str → Parsed (BTreeMap Device IoDeviceCostQos)
  unfolding parse_device_lines device_cost_qos
  parse_io_cost_qos contents = parse_device_lines contents device_cost_qos

pub record IoDeviceCostModel : Type 0 where
  pub control : IoCostControl
  pub model : IoCostModelName
  pub read_bandwidth : BytesPerSecond
  pub read_sequential_iops : OperationsPerSecond
  pub read_random_iops : OperationsPerSecond
  pub write_bandwidth : BytesPerSecond
  pub write_sequential_iops : OperationsPerSecond
  pub write_random_iops : OperationsPerSecond

-- `IoDeviceCostModel::from_fields`
unfoldable pub device_cost_model : KeyedFields → Parsed IoDeviceCostModel
unfolding required decode_control decode_model_name parse_bandwidth parse_iops
device_cost_model fields = do
  ctrl ← required decode_control fields (codes "ctrl")
  model ← required decode_model_name fields (codes "model")
  rbps ← required parse_bandwidth fields (codes "rbps")
  rseqiops ← required parse_iops fields (codes "rseqiops")
  rrandiops ← required parse_iops fields (codes "rrandiops")
  wbps ← required parse_bandwidth fields (codes "wbps")
  wseqiops ← required parse_iops fields (codes "wseqiops")
  wrandiops ← required parse_iops fields (codes "wrandiops")
  ok (record {
    control = ctrl;
    model = model;
    read_bandwidth = rbps;
    read_sequential_iops = rseqiops;
    read_random_iops = rrandiops;
    write_bandwidth = wbps;
    write_sequential_iops = wseqiops;
    write_random_iops = wrandiops;
  })

-- `FromStr for IoCostModel`
unfoldable pub parse_io_cost_model : Str → Parsed (BTreeMap Device IoDeviceCostModel)
unfolding parse_device_lines device_cost_model
parse_io_cost_model contents = parse_device_lines contents device_cost_model

pub data IoPriorityClass : Type 0 where
  no_change promote_to_rt restrict_to_be idle none_to_rt : IoPriorityClass

-- The literals of the match in `from_str`.
unfoldable pub priority_name : IoPriorityClass → Str
priority_name no_change = codes "no-change"
priority_name promote_to_rt = codes "promote-to-rt"
priority_name restrict_to_be = codes "restrict-to-be"
priority_name idle = codes "idle"
priority_name none_to_rt = codes "none-to-rt"

abbrev pub priorities : List IoPriorityClass
priorities = no_change ∷ promote_to_rt ∷ restrict_to_be ∷ idle ∷ none_to_rt ∷ []

-- `FromStr for IoPriorityClass`
unfoldable pub parse_io_priority : Str → Parsed IoPriorityClass
unfolding trim is_whitespace from_name priority_name missing invalid
parse_io_priority raw =
    if is_empty (trim raw)
    then err (missing raw (codes "priority"))
    else ok_or (from_name priority_name priorities (trim raw))
        (invalid raw (codes "priority") (trim raw) out_of_range)
