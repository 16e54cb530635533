-- ===== src/Parse/Abstract.antt =====
-- The abstract view of a file of keys and values: a function from keys to values.
use sakai.Str.{Str}
use sakai.BTreeMap.Order.{str_ord}
