-- ===== src/Json/Tally.antt =====
-- One reading of `isoformat` and `fromisoformat` with their laws, for the tests: a text of as many
-- strokes as the instant counts.
use Prim.Native.String.{◌∷◌ as cons}
use Prim.Native.Char.{code}
use clearfeature.Prelude.{
  ℕ, zero, suc, String, ◌≡◌, refl, ap, Option, none, some, ◌==◌, if◌then◌else◌,
}
use clearfeature.Domain.{DateTime, naive, aware}
use clearfeature.Json.Times.{IsoFormat}

strokes : ℕ → String
strokes zero = ""
strokes (suc n) = cons "|" (strokes n)

count_strokes : String → ℕ
count_strokes String.[] = zero
count_strokes (String.◌∷◌ c s) = suc (count_strokes s)

unfoldable pub write_strokes : DateTime → String
unfolding strokes
write_strokes (naive t) = cons "n" (strokes t)
write_strokes (aware t) = cons "a" (strokes t)

unfoldable pub parse_strokes : String → Option DateTime
unfolding count_strokes
parse_strokes String.[] = none
parse_strokes (String.◌∷◌ c s) =
    if code c == b'n' then some (naive (count_strokes s)) else some (aware (count_strokes s))

count_strokes-strokes : (n : ℕ) → count_strokes (strokes n) ≡ n
unfolding count_strokes strokes
count_strokes-strokes zero = refl
count_strokes-strokes (suc n) = ap suc (count_strokes-strokes n)

pub parse_strokes-write_strokes_strokes : (t : DateTime) → parse_strokes (write_strokes t) ≡ some t
unfolding parse_strokes write_strokes
parse_strokes-write_strokes_strokes (naive t) = rw (count_strokes-strokes t) refl
parse_strokes-write_strokes_strokes (aware t) = rw (count_strokes-strokes t) refl

pub parse_strokes-empty : parse_strokes "" ≡ none
unfolding parse_strokes
parse_strokes-empty = refl

instance abbrev pub tally : IsoFormat
unfolding parse_strokes write_strokes
tally = record {
  isoformat = write_strokes;
  fromisoformat = parse_strokes;
  parses = parse_strokes-write_strokes_strokes;
  refuses_empty = parse_strokes-empty;
}
