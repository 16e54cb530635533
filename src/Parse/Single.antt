-- ===== src/Parse/Single.antt =====
-- Files of one value.
use sakai.Base.{ok, err, ◌>>=◌, ◌>>◌, Result-cases, ◌≡◌, refl, inl, inr, List, [], ◌∷◌}
use sakai.Str.{Str, split_ascii_whitespace}
use sakai.Error.{missing, excess, Parsed}
use sakai.Decode.{Decoder, parse_field}
use sakai.Parse.{next_field, finish, single}

module _ {ℓ} {T : Type ℓ} (decode : Decoder T) (raw field : Str) where
  -- What the tokens of a file decide.
  abbrev pub of_tokens : List Str → Parsed T
  of_tokens [] = err (missing raw field)
  of_tokens (t ∷ []) = parse_field decode raw field t
  of_tokens (t ∷ u ∷ us) = parse_field decode raw field t >>= λ _. err (excess raw)

  -- A file of one value is read by its tokens alone: none is a missing field, one is the value or
  -- its error, and with more the error of the first comes before the excess.
  pub single-of_tokens : single decode raw field ≡ of_tokens (split_ascii_whitespace raw)
  unfolding single
  single-of_tokens = go (split_ascii_whitespace raw)
    where
      go :
          (ts : List Str)
          → (do
            (v, p) ← next_field decode field (record { raw = raw; fields = ts })
            finish p
            ok v)
            ≡ of_tokens ts
      go [] = refl
      go (t ∷ []) = elim (Result-cases (decode t)) [ inl (v, e) ↦ rw e | inr (x, e) ↦ rw e ]
      go (t ∷ u ∷ us) = elim (Result-cases (decode t)) [ inl (v, e) ↦ rw e | inr (x, e) ↦ rw e ]
