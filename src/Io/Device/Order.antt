-- ===== src/Io/Device/Order.antt =====
-- The device numbers, ordered by major and then by minor number.
use sakai.Base.{ℕ, Ordering, compare, ◌≡◌, ◌↔◌, arith}
use sakai.BTreeMap.Order.{Ord, then_cmp}

pub record Device : Type 0 where
  pub major : ℕ
  pub minor : ℕ

abbrev pub cmp_device : Device → Device → Ordering
cmp_device a b = then_cmp (compare a.major b.major) (compare a.minor b.minor)

pub device_iff : (a b : Device) → (cmp_device a b ≡ Ordering.eq) ↔ (a ≡ b)
device_iff a b = ground arith

pub device_flip : (a b : Device) → cmp_device a b ≡ Ordering.lt → cmp_device b a ≡ Ordering.gt
device_flip a b h = ground arith

pub device_unflip : (a b : Device) → cmp_device a b ≡ Ordering.gt → cmp_device b a ≡ Ordering.lt
device_unflip a b h = ground arith

pub device_trans :
    (a b c : Device)
    → cmp_device a b ≡ Ordering.lt
    → cmp_device b c ≡ Ordering.lt
    → cmp_device a c ≡ Ordering.lt
device_trans a b c h k = ground arith

instance abbrev pub device_ord : Ord Device
device_ord = record {
  cmp = cmp_device;
  cmp_iff = device_iff;
  cmp_flip = device_flip;
  cmp_unflip = device_unflip;
  cmp_trans = device_trans;
}
