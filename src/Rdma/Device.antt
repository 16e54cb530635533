-- ===== src/Rdma/Device.antt =====
-- RDMA devices, ordered by name and then by index, where no index comes first.
use sakai.Base.{ℕ, Ordering, ◌≡◌, ◌↔◌, Option, arith}
use sakai.BTreeMap.Keys.{cmp_option}
use sakai.BTreeMap.Order.{Ord, then_cmp, cmp_str, str_iff, str_flip, str_unflip, str_trans, nat_ord}
use sakai.Str.{Str}

pub record RdmaDevice : Type 0 where
  pub name : Str
  pub index : Option ℕ

abbrev pub cmp_rdma : RdmaDevice → RdmaDevice → Ordering
cmp_rdma a b = then_cmp (cmp_str a.name b.name) (cmp_option a.index b.index)

pub rdma_iff : (a b : RdmaDevice) → (cmp_rdma a b ≡ Ordering.eq) ↔ (a ≡ b)
rdma_iff a b = ground (arith, str_iff a.name b.name)

pub rdma_flip : (a b : RdmaDevice) → cmp_rdma a b ≡ Ordering.lt → cmp_rdma b a ≡ Ordering.gt
rdma_flip a b h =
    ground (arith, str_flip a.name b.name, str_iff a.name b.name, str_iff b.name a.name)

pub rdma_unflip : (a b : RdmaDevice) → cmp_rdma a b ≡ Ordering.gt → cmp_rdma b a ≡ Ordering.lt
rdma_unflip a b h =
    ground (arith, str_unflip a.name b.name, str_iff a.name b.name, str_iff b.name a.name)

pub rdma_trans :
    (a b c : RdmaDevice)
    → cmp_rdma a b ≡ Ordering.lt
    → cmp_rdma b c ≡ Ordering.lt
    → cmp_rdma a c ≡ Ordering.lt
rdma_trans a b c h k = ground (
  arith,
  str_trans a.name b.name c.name,
  str_iff a.name b.name,
  str_iff b.name c.name,
  str_iff a.name c.name,
)

instance abbrev pub rdma_ord : Ord RdmaDevice
rdma_ord = record {
  cmp = cmp_rdma;
  cmp_iff = rdma_iff;
  cmp_flip = rdma_flip;
  cmp_unflip = rdma_unflip;
  cmp_trans = rdma_trans;
}
