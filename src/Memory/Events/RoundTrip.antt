-- ===== src/Memory/Events/RoundTrip.antt =====
-- The counters as the kernel writes them, read back.
use sakai.Base.{All, All-append, ok, ◌≤◌, ◌≡◌, refl, true, Option, none, some, [], ◌∷◌, ◌++◌}
use sakai.Decode.{parse_field, parse_count}
use sakai.Decode.Sound.{parse_count-print}
use sakai.Parse.{KeyedFields, required, optional}
use sakai.BTreeMap.{get, from_iter}
use sakai.Num.{u64_max, print}
use sakai.Str.{Str, codes, is_whitespace}
use sakai.Unit.{Count}
use sakai.Words.{print-IsWord, is_word, is_word-IsWord}
use sakai.Parse.Keyed.{Pairs, pair_file, IsPair, keyed_fields-pair_file}
use sakai.Memory.Events.{MemoryEventCounts, parse_memory_events}
use sakai.BTreeMap.Order.{cmp_str, str_ord}
use mathlib.Core.Option

abbrev entry : Str → Count → Str × Str
entry key c = (key, print c.count)

abbrev optional_entry : Str → Option Count → Pairs
optional_entry key none = []
optional_entry key (some c) = entry key c ∷ []

-- The lines of `memory.events` in the order of the kernel.
abbrev pub memory_pairs : MemoryEventCounts → Pairs
memory_pairs e =
    entry (codes "low") e.low
    ∷ entry (codes "high") e.high
    ∷ entry (codes "max") e.max
    ∷ entry (codes "oom") e.oom
    ∷ entry (codes "oom_kill") e.oom_kill
    ∷ (optional_entry (codes "oom_group_kill") e.oom_group_kill
        ++ optional_entry (codes "sock_throttled") e.sock_throttled)

abbrev pub Fits : Count → Type 0
Fits c = c.count ≤ u64_max

abbrev pub FitsOptional : Option Count → Type 0
FitsOptional none = Unit
FitsOptional (some c) = Fits c

abbrev pub FitsAll : MemoryEventCounts → Type 0
FitsAll e =
    Fits e.low
    × Fits e.high
    × Fits e.max
    × Fits e.oom
    × Fits e.oom_kill
    × FitsOptional e.oom_group_kill
    × FitsOptional e.sock_throttled

entry-IsPair : (key : Str) (c : Count) → is_word key ≡ true → IsPair (entry key c)
entry-IsPair key c h = (is_word-IsWord key h, print-IsWord c.count)

optional-IsPair :
    (key : Str) (o : Option Count) → is_word key ≡ true → All IsPair (optional_entry key o)
optional-IsPair key none h = tt
optional-IsPair key (some c) h = (entry-IsPair key c h, tt)

memory_pairs-IsPair : (e : MemoryEventCounts) → All IsPair (memory_pairs e)
unfolding is_whitespace
memory_pairs-IsPair e = (
  entry-IsPair (codes "low") e.low refl,
  (
    entry-IsPair (codes "high") e.high refl,
    (
      entry-IsPair (codes "max") e.max refl,
      (
        entry-IsPair (codes "oom") e.oom refl,
        (
          entry-IsPair (codes "oom_kill") e.oom_kill refl,
          All-append IsPair (optional_entry (codes "oom_group_kill") e.oom_group_kill) _
              (optional-IsPair (codes "oom_group_kill") e.oom_group_kill refl)
              (optional-IsPair (codes "sock_throttled") e.sock_throttled refl),
        ),
      ),
    ),
  ),
)

pub required-some :
    (fields : KeyedFields) (key : Str) (c : Count)
    → get key fields.values ≡ some (print c.count)
    → Fits c
    → required parse_count fields key ≡ ok c
unfolding required parse_field
required-some fields key c found fits = rw (found, parse_count-print c.count fits)

optional-same :
    (fields : KeyedFields) (key : Str) (o : Option Count)
    → get key fields.values ≡ Option.map (λ (c : Count). print c.count) o
    → FitsOptional o
    → optional parse_count fields key ≡ ok o
unfolding optional parse_field
optional-same fields key none found fits = rw found
optional-same fields key (some c) found fits = rw (found, parse_count-print c.count fits)

abbrev fields_of : MemoryEventCounts → KeyedFields
fields_of e = record { raw = pair_file (memory_pairs e); values = from_iter (memory_pairs e) }

abbrev Found : MemoryEventCounts → Str → Count → Type 0
Found e key c = get key (from_iter (memory_pairs e)) ≡ some (print c.count)

abbrev FoundOptional : MemoryEventCounts → Str → Option Count → Type 0
FoundOptional e key o =
    get key (from_iter (memory_pairs e)) ≡ Option.map (λ (c : Count). print c.count) o

-- Every counter is found under its name.
abbrev AllFound : MemoryEventCounts → Type 0
AllFound e =
    Found e (codes "low") e.low
    × Found e (codes "high") e.high
    × Found e (codes "max") e.max
    × Found e (codes "oom") e.oom
    × Found e (codes "oom_kill") e.oom_kill
    × FoundOptional e (codes "oom_group_kill") e.oom_group_kill
    × FoundOptional e (codes "sock_throttled") e.sock_throttled

module _ (low high max oom kill : Count) where
  abbrev events : Option Count → Option Count → MemoryEventCounts
  events g t = record {
    low = low;
    high = high;
    max = max;
    oom = oom;
    oom_kill = kill;
    oom_group_kill = g;
    sock_throttled = t;
  }

  all_found : (g t : Option Count) → AllFound (events g t)
  unfolding get from_iter cmp_str
  all_found none none = (refl, refl, refl, refl, refl, refl, refl)
  all_found none (some t) = (refl, refl, refl, refl, refl, refl, refl)
  all_found (some g) none = (refl, refl, refl, refl, refl, refl, refl)
  all_found (some g) (some t) = (refl, refl, refl, refl, refl, refl, refl)

-- The counters of `memory.events` are read back as the kernel writes them, those that an older kernel
-- leaves out as absent, for all numbers of 64 bits.
pub parse_memory_events-memory_pairs :
    (e : MemoryEventCounts) → FitsAll e → parse_memory_events (pair_file (memory_pairs e)) ≡ ok e
unfolding parse_memory_events
parse_memory_events-memory_pairs e (f0, f1, f2, f3, f4, f5, f6) =
    let fields = fields_of e in
    let (g0, g1, g2, g3, g4, g5, g6) =
      all_found e.low e.high e.max e.oom e.oom_kill e.oom_group_kill e.sock_throttled in
    rw (keyed_fields-pair_file (memory_pairs e) (λ _. codes "value") (memory_pairs-IsPair e)) (
      rw (
        required-some fields (codes "low") e.low g0 f0,
        required-some fields (codes "high") e.high g1 f1,
        required-some fields (codes "max") e.max g2 f2,
        required-some fields (codes "oom") e.oom g3 f3,
        required-some fields (codes "oom_kill") e.oom_kill g4 f4,
        optional-same fields (codes "oom_group_kill") e.oom_group_kill g5 f5,
        optional-same fields (codes "sock_throttled") e.sock_throttled g6 f6,
      ))
