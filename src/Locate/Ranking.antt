-- ===== src/Locate/Ranking.antt =====
-- Sorting the candidates by the depth of their roots keeps them all, and the order of equal depths.
use sakai.Base.{
  leb, ◌==◌, Bool-cases, filter, ℕ, ◌≤◌, ◌≡◌, refl, ◌∙◌, inl, inr, Bool, List, [], ◌∷◌, arith,
}
use sakai.Locate.{CgroupPath, insert_ranked, sort_ranked}

abbrev pub Ranked : Type 0
Ranked = ℕ × CgroupPath

abbrev AtMost : ℕ → List Ranked → Type 0
AtMost depth [] = Unit
AtMost depth (x ∷ xs) = x.0 ≤ depth

-- Each entry is at least as deep as the next.
abbrev pub Descends : List Ranked → Type 0
Descends [] = Unit
Descends (x ∷ xs) = AtMost x.0 xs × Descends xs

abbrev pub is_at : ℕ → Ranked → Bool
is_at depth entry = entry.0 == depth

AtMost-insert_ranked :
    (depth : ℕ) (x : Ranked) (xs : List Ranked)
    → x.0 ≤ depth
    → AtMost depth xs
    → AtMost depth (insert_ranked x xs)
unfolding insert_ranked
AtMost-insert_ranked depth x [] h k = h
AtMost-insert_ranked depth x (y ∷ ys) h k = elim (Bool-cases (leb y.0 x.0)) [
  | inl front ↦ rw front h
  | inr behind ↦ rw behind k
]

insert_ranked-Descends :
    (x : Ranked) (xs : List Ranked) → Descends xs → Descends (insert_ranked x xs)
unfolding insert_ranked
insert_ranked-Descends x [] h = (tt, tt)
insert_ranked-Descends x (y ∷ ys) (h, hs) = elim (Bool-cases (leb y.0 x.0)) [
  | inl front ↦ rw front (ground arith, (h, hs))
  | inr behind ↦
      rw behind (AtMost-insert_ranked y.0 x ys (ground arith) h, insert_ranked-Descends x ys hs)
]

pub sort_ranked-Descends : (xs : List Ranked) → Descends (sort_ranked xs)
unfolding sort_ranked
sort_ranked-Descends [] = tt
sort_ranked-Descends (x ∷ xs) = insert_ranked-Descends x (sort_ranked xs) (sort_ranked-Descends xs)

insert_ranked-filter :
    (depth : ℕ) (x : Ranked) (xs : List Ranked)
    → filter (is_at depth) (insert_ranked x xs) ≡ filter (is_at depth) (x ∷ xs)
unfolding insert_ranked
insert_ranked-filter depth x [] = refl
insert_ranked-filter depth x (y ∷ ys) = ground (arith, insert_ranked-filter depth x ys)

pub sort_ranked-filter :
    (depth : ℕ) (xs : List Ranked) → filter (is_at depth) (sort_ranked xs) ≡ filter (is_at depth) xs
unfolding sort_ranked
sort_ranked-filter depth [] = refl
sort_ranked-filter depth (x ∷ xs) =
    insert_ranked-filter depth x (sort_ranked xs) ∙ ground (arith, sort_ranked-filter depth xs)
