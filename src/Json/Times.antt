-- ===== src/Json/Times.antt =====
-- `datetime.isoformat` and `datetime.fromisoformat` of the standard library, which are outside of the
-- program: an interface, with what Python's documentation says of the two.
use clearfeature.Prelude.{String, ◌≡◌, Option, none, some}
use clearfeature.Domain.{DateTime}

pub record IsoFormat : Type 0 where
  pub isoformat : DateTime → String
  pub fromisoformat : String → Option DateTime
  pub parses : (t : DateTime) → fromisoformat (isoformat t) ≡ some t
  pub refuses_empty : fromisoformat "" ≡ none
