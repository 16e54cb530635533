-- ===== src/Core/Task/RoundTrip.antt =====
-- A list of tasks, printed and read back.
use sakai.Base.{All, ok, collect, ℕ, ◌≤◌, ◌≡◌, refl, false, List, [], ◌∷◌, map}
use sakai.Num.{pos, i32_max, print}
use sakai.Num.Print.{parse_signed-print}
use sakai.Decode.{signed}
use sakai.Str.{Str, trim, is_blank}
use sakai.Str.Lines.{IsLine, unlines}
use sakai.Str.Trim.{trim_same}
use sakai.Words.{IsWord-IsLine, filled_lines-unlines, print-IsWord, word-filled, word-All}
use sakai.Core.Task.{TaskId, try_new_task, parse_task, parse_tasks}

abbrev pub task : ℕ → TaskId
task n = record { id = pos n }

trim-print : (n : ℕ) → trim (print n) ≡ print n
trim-print n = trim_same (print n) (word-All (print n) (print-IsWord n))

signed-print : (n : ℕ) → n ≤ i32_max → signed i32_max (print n) ≡ ok (pos n)
unfolding signed
signed-print n h = rw (parse_signed-print i32_max n h)

parse_task-print :
    (contents : Str) (n : ℕ) → n ≤ i32_max → parse_task contents (print n) ≡ ok (task n)
unfolding parse_task try_new_task
parse_task-print contents n h = rw (trim-print n) (rw (signed-print n h))

collect_tasks :
    (contents : Str) (ns : List ℕ)
    → All (λ n. n ≤ i32_max) ns
    → collect (map (parse_task contents) (map print ns)) ≡ ok (map task ns)
collect_tasks contents [] h = refl
collect_tasks contents (n ∷ ns) (hn, h) =
    rw (parse_task-print contents n hn, collect_tasks contents ns h)

lines-IsLine : (ns : List ℕ) → All IsLine (map print ns)
lines-IsLine [] = tt
lines-IsLine (n ∷ ns) = (IsWord-IsLine (print n) (print-IsWord n), lines-IsLine ns)

lines-filled : (ns : List ℕ) → All (λ l. is_blank l ≡ false) (map print ns)
lines-filled [] = tt
lines-filled (n ∷ ns) = (word-filled (print n) (print-IsWord n), lines-filled ns)

-- The identifiers of a file with one on each line, in its order and with repetitions, are read back, for
-- all that fit in 31 bits, and the empty file is the empty list.
pub parse_tasks-print :
    (ns : List ℕ)
    → All (λ n. n ≤ i32_max) ns
    → parse_tasks (unlines (map print ns)) ≡ ok (map task ns)
unfolding parse_tasks
parse_tasks-print ns h =
    rw (filled_lines-unlines (map print ns) (lines-IsLine ns) (lines-filled ns))
      (collect_tasks (unlines (map print ns)) ns h)
