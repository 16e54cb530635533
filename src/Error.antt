-- ===== src/Error.antt =====
-- The errors of sakai/src/error.rs. An operating-system error is its kind alone: the crate reads
-- nothing else of it but to hand it on.
use sakai.Base.{Result}
use sakai.Num.{IntErrorKind}
use sakai.Str.{Str, codes}

-- `std::num::ParseFloatError`
pub data FloatErrorKind : Type 0 where
  no_float bad_float : FloatErrorKind

pub data ParseValueError : Type 0 where
  integer : IntErrorKind → ParseValueError
  float : FloatErrorKind → ParseValueError
  out_of_range : ParseValueError

pub data FieldKind : Type 0 where
  missing_field excess_field : FieldKind

pub data ParseError (E : Type 0) : Type 0 where
  field_error : FieldKind → Str → Str → ParseError E
  invalid_error : Str → Str → Str → E → ParseError E

module _ {E : Type 0} where
  unfoldable pub missing : Str → Str → ParseError E
  missing raw field = field_error missing_field raw field

  unfoldable pub excess : Str → ParseError E
  excess raw = field_error excess_field raw (codes "additional")

  unfoldable pub invalid : Str → Str → Str → E → ParseError E
  invalid raw field value source = invalid_error raw field value source

-- What the parsers of the crate return: their field errors are all `ParseValueError`.
abbrev pub Parsed {ℓ} : Type ℓ → Type ℓ
Parsed A = Result (ParseError ParseValueError) A
