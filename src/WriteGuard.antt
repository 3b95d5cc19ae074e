-- ===== src/WriteGuard.antt =====
-- fs_core/write_guard.py: the rule by which a computed value may replace the stored one. A
-- freshness tuple is compared first by its `data_ts`, then by its `max_input_data_ts`.
pub mod Order
use clearfeature.Prelude.{
  ℕ, String, ◌≡◌, refl, Bool, true, false, not, ◌&&◌, ◌||◌, Option, none, some, List, [], ◌∷◌, any,
  ltb, ◌==◌, if◌then◌else◌, str_eq,
}

pub data Outcome : Type 0 where
  written written_recompute skipped_stale noop : Outcome

abbrev pub Freshness : Type 0
Freshness = ℕ × ℕ

-- `outcome in WRITE_OUTCOMES`
abbrev pub is_write : Outcome → Bool
is_write written = true
is_write written_recompute = true
is_write _ = false

abbrev pub is_stale : Outcome → Bool
is_stale skipped_stale = true
is_stale _ = false

unfoldable pub guard_tuple : ℕ → Option ℕ → Freshness
guard_tuple data_ts none = (data_ts, data_ts)
guard_tuple data_ts (some max_input_data_ts) = (data_ts, max_input_data_ts)

-- Python's `a < b` on pairs.
abbrev pub tuple_lt : Freshness → Freshness → Bool
tuple_lt a b = if a.0 == b.0 then ltb a.1 b.1 else ltb a.0 b.0

-- `fingerprint or ""`
abbrev pub or_empty : Option String → String
or_empty none = ""
or_empty (some s) = s

-- Both sides carry an availability, and the two differ.
abbrev pub availability_differs : Option ℕ → Option ℕ → Bool
availability_differs (some a) (some b) = not (a == b)
availability_differs _ _ = false

unfoldable pub decide_write :
    Freshness → Option String → Option Freshness → Option String → Option ℕ → Option ℕ → Outcome
decide_write incoming fingerprint none current_fingerprint available current_available = written
decide_write incoming fingerprint (some current) current_fingerprint available current_available =
    if tuple_lt current incoming
    then written
    else if tuple_lt incoming current
    then skipped_stale
    else if str_eq (or_empty fingerprint) (or_empty current_fingerprint)
    then (if availability_differs available current_available then written_recompute else noop)
    else written_recompute

unfoldable pub aggregate_online_status : List Outcome → Outcome
aggregate_online_status outcomes =
    if any is_write outcomes then written else if any is_stale outcomes then skipped_stale else noop
