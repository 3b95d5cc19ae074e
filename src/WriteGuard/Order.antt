-- ===== src/WriteGuard/Order.antt =====
-- fs_core/write_guard.py: the order of freshness tuples, and what each outcome says of it.
use clearfeature.Prelude.{
  ℕ, ◌≤◌, ◌<◌, String, ◌≡◌, refl, ◌≢◌, ◌↔◌, ◌⊎◌, inr, true, false, Option, some, arith, eq_iff,
}
use clearfeature.WriteGuard.{
  Outcome, written, written_recompute, skipped_stale, noop, Freshness, or_empty,
  availability_differs, decide_write,
}

-- `a` is older than `b`, in the lexicographic order.
abbrev pub Older : Freshness → Freshness → Type 0
Older a b = (a.0 < b.0) ⊎ ((a.0 ≡ b.0) × (a.1 < b.1))

-- `a` is not newer than `b`.
abbrev pub AtMost : Freshness → Freshness → Type 0
AtMost a b = (a.0 < b.0) ⊎ ((a.0 ≡ b.0) × (a.1 ≤ b.1))

pub AtMost-refl : (a : Freshness) → AtMost a a
AtMost-refl a = inr (refl, omega arith)

pub AtMost-trans : (a b c : Freshness) → AtMost a b → AtMost b c → AtMost a c
AtMost-trans a b c h k = ground arith

pub AtMost-antisym : (a b : Freshness) → AtMost a b → AtMost b a → a ≡ b
AtMost-antisym a b h k = ground arith

pub AtMost-total : (a b : Freshness) → AtMost a b ⊎ AtMost b a
AtMost-total a b = ground arith

-- Which outcome is returned, for each way the two records can stand to one another.
abbrev pub DecidedBy :
    Freshness → Option String → Freshness → Option String → Option ℕ → Option ℕ → Outcome → Type 0
DecidedBy incoming fp current current_fp at current_at written = Older current incoming
DecidedBy incoming fp current current_fp at current_at skipped_stale = Older incoming current
DecidedBy incoming fp current current_fp at current_at noop =
    (incoming ≡ current)
    × (or_empty fp ≡ or_empty current_fp)
    × (availability_differs at current_at ≡ false)
DecidedBy incoming fp current current_fp at current_at written_recompute =
    (incoming ≡ current)
    × ((or_empty fp ≢ or_empty current_fp) ⊎ (availability_differs at current_at ≡ true))

-- Against a stored record the outcome is the one that the order, the fingerprints and the
-- availabilities call for, and no other.
pub decide_write-DecidedBy :
    (incoming current : Freshness) (fp current_fp : Option String) (at current_at : Option ℕ)
    (o : Outcome)
    → (decide_write incoming fp (some current) current_fp at current_at ≡ o)
      ↔ DecidedBy incoming fp current current_fp at current_at o
unfolding decide_write
decide_write-DecidedBy incoming current fp current_fp at current_at written =
    ground (arith, eq_iff (or_empty fp) (or_empty current_fp))
decide_write-DecidedBy incoming current fp current_fp at current_at o =
    ground (arith, eq_iff (or_empty fp) (or_empty current_fp))
