-- ===== src/Rdma/Unlimited.antt =====
-- `rdma.current` and `rdma.max` are read by the same lines, sakai/src/cgroup/v2/rdma.rs: what a line
-- makes of its fields decides no more than the value of its device.
use sakai.Base.{
  ok, err, ◌>>=◌, map_ok, collect, map_ok->>=, ◌-◌, ◌^◌, ◌≡◌, refl, ap, ◌∙◌, List, [], ◌∷◌, map,
}
use sakai.BTreeMap.{from_iter}
use sakai.BTreeMap.Values.{on_value, map_values, from_iter-map_values}
use sakai.Decode.{parse_count, max_or}
use sakai.Error.{Parsed}
use sakai.Io.Device.{equation}
use sakai.Parse.{KeyedFields, new_fields, required}
use sakai.Rdma.Device.{RdmaDevice, rdma_ord}
use sakai.Rdma.Files.{
  RdmaDeviceCurrent, max_as_count, device_current, RdmaDeviceMax, device_limits, rdma_index,
  rdma_line, parse_rdma_devices, parse_rdma_current, parse_rdma_max,
}
use sakai.Unit.{Count, MaxOr, max_token, value}
use sakai.Str.{Str, codes, split_ascii_whitespace, filled_lines}

-- A limit as a usage, where `max` is the greatest `i32`.
abbrev limit_usage : MaxOr Count → Count
limit_usage max_token = record { count = 2 ^ 31 - 1 }
limit_usage (value c) = c

abbrev pub as_usage : RdmaDeviceMax → RdmaDeviceCurrent
as_usage limits = record {
  handles = limit_usage limits.max_handles;
  objects = limit_usage limits.max_objects;
}

max_as_count-limit_usage : (limit : MaxOr Count) → max_as_count limit ≡ limit_usage limit
unfolding max_as_count
max_as_count-limit_usage max_token = refl
max_as_count-limit_usage (value c) = refl

device_current-as_usage :
    (fields : KeyedFields) → device_current fields ≡ map_ok as_usage (device_limits fields)
unfolding device_current device_limits
device_current-as_usage fields =
    map_ok->>= as_usage (required (max_or parse_count) fields (codes "hca_handle")) _ _ (λ handles.
      map_ok->>= as_usage (required (max_or parse_count) fields (codes "hca_object")) _ _
        (λ objects. rw (max_as_count-limit_usage handles, max_as_count-limit_usage objects) refl))

module _ {S T : Type 0} (g : S → T) where
  map_ok-cons :
      (first : Parsed S) (rest : Parsed (List S))
      → (do y ← map_ok g first; ys ← map_ok (map g) rest; ok (y ∷ ys))
        ≡ map_ok (map g) (do y ← first; ys ← rest; ok (y ∷ ys))
  map_ok-cons (err e) rest = refl
  map_ok-cons (ok y) (err e) = refl
  map_ok-cons (ok y) (ok ys) = refl

  map_ok-collect :
      {A : Type 0} (read : A → Parsed T) (read' : A → Parsed S)
      → ((x : A) → read x ≡ map_ok g (read' x))
      → (xs : List A) → collect (map read xs) ≡ map_ok (map g) (collect (map read' xs))
  map_ok-collect read read' h [] = refl
  map_ok-collect read read' h (x ∷ xs) =
      rw (h x, map_ok-collect read read' h xs) (map_ok-cons (read' x) (collect (map read' xs)))

module _ {S T : Type 0} (g : S → T) (raw : Str) where
  map_ok-pair :
      {K : Type 0} (k : K) (parsed : Parsed S)
      → (do v ← map_ok g parsed; ok (k, v)) ≡ map_ok (on_value g) (do v ← parsed; ok (k, v))
  map_ok-pair k (ok v) = refl
  map_ok-pair k (err e) = refl

  map_ok-from_iter :
      (entries : Parsed (List (RdmaDevice × S)))
      → (do kvs ← map_ok (map (on_value g)) entries; ok (from_iter kvs))
        ≡ map_ok (map_values g) (do kvs ← entries; ok (from_iter kvs))
  map_ok-from_iter (ok kvs) = ap ok (from_iter-map_values g kvs)
  map_ok-from_iter (err e) = refl

  rdma_line-map_ok :
      (parse : KeyedFields → Parsed T) (parse' : KeyedFields → Parsed S)
      → ((fields : KeyedFields) → parse fields ≡ map_ok g (parse' fields))
      → (tokens : List Str)
      → rdma_line raw parse tokens ≡ map_ok (on_value g) (rdma_line raw parse' tokens)
  rdma_line-map_ok parse parse' h [] = refl
  rdma_line-map_ok parse parse' h (device ∷ tokens) =
      map_ok->>= (on_value g) (new_fields raw (map (equation raw) tokens)) _ _ (λ fields.
        map_ok->>= (on_value g) (rdma_index raw fields) _ _ (λ index.
          ap (λ parsed. do v ← parsed; ok (record { name = device; index = index }, v)) (h fields)
          ∙ (map_ok-pair (record { name = device; index = index }) (parse' fields))))

  parse_rdma_devices-map_ok :
      (parse : KeyedFields → Parsed T) (parse' : KeyedFields → Parsed S)
      → ((fields : KeyedFields) → parse fields ≡ map_ok g (parse' fields))
      → parse_rdma_devices raw parse ≡ map_ok (map_values g) (parse_rdma_devices raw parse')
  unfolding parse_rdma_devices
  parse_rdma_devices-map_ok parse parse' h =
      rw
        (map_ok-collect (on_value g) _ _
          (λ line. rdma_line-map_ok parse parse' h (split_ascii_whitespace line))
          (filled_lines raw))
        (map_ok-from_iter (
          collect
            (map (λ line. rdma_line raw parse' (split_ascii_whitespace line)) (filled_lines raw))))

-- A file is accepted as `rdma.current` just when it is accepted as `rdma.max`, with the same error
-- where it is not, and the usages are the limits, where `max` is the greatest `i32`.
pub parse_rdma_current-as_usage :
    (contents : Str)
    → parse_rdma_current contents ≡ map_ok (map_values as_usage) (parse_rdma_max contents)
unfolding parse_rdma_current parse_rdma_max
parse_rdma_current-as_usage contents =
    parse_rdma_devices-map_ok as_usage contents device_current device_limits device_current-as_usage
