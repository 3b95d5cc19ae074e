-- ===== src/Online/Tests.antt =====
-- Runs of the online store, and its theorems at a few calls.
use clearfeature.Prelude.{
  ℕ, ◌≡◌, refl, ◌↔◌, inl, inr, false, none, some, List, [], ◌∷◌, In, lookup, insert,
}
use clearfeature.WriteGuard.{skipped_stale, is_write, decide_write, guard_tuple}
use clearfeature.Domain.{encode}
use clearfeature.WriteGuard.Order.{DecidedBy, decide_write-DecidedBy}
use clearfeature.Online.{OnlineKey, online_key_key, write}
use clearfeature.Online.Fresh.{Submission, write_all, IsFreshest, write_all-IsFreshest}
use clearfeature.Online.Replay.{stored, write-write_self, write_all_converges}
use clearfeature.Samples.{income_at}

abbrev call : ℕ → ℕ → Submission ℕ
call data_ts calc_ts = record {
  view = "risk";
  view_version = 2;
  result = income_at data_ts calc_ts (some "f");
}

abbrev key : OnlineKey
key = record {
  entity = "user_id=7";
  view = "risk";
  view_version = 2;
  feature_name = "income";
  feature_version = 1;
}

abbrev calls : List (Submission ℕ)
calls = call 5 6 ∷ call 9 9 ∷ call 7 8 ∷ []

abbrev reversed : List (Submission ℕ)
reversed = call 7 8 ∷ call 9 9 ∷ call 5 6 ∷ []

holds_latest : lookup key (write_all calls []) ≡ some (income_at 9 9 (some "f"))
unfolding write_all write decide_write guard_tuple lookup insert encode
holds_latest = refl

write_all-IsFreshest_example : IsFreshest key calls (income_at 9 9 (some "f"))
write_all-IsFreshest_example =
    write_all-IsFreshest key calls (income_at 9 9 (some "f")) holds_latest

same_calls : (w : Submission ℕ) → In w calls ↔ In w reversed
same_calls w = (
  λ i. elim i [
    | inl e ↦ inr (inr (inl e))
    | inr (inl e) ↦ inr (inl e)
    | inr (inr (inl e)) ↦ inl e
    | inr (inr (inr n)) ↦ elim n [ ]
  ],
  λ i. elim i [
    | inl e ↦ inr (inr (inl e))
    | inr (inl e) ↦ inr (inl e)
    | inr (inr (inl e)) ↦ inl e
    | inr (inr (inr n)) ↦ elim n [ ]
  ],
)

write_all_converges_example : stored key (write_all calls []) ≡ stored key (write_all reversed [])
write_all_converges_example = write_all_converges calls reversed same_calls key

write-write_self_example :
    let s = (write "risk" 2 (income_at 9 9 none) (write_all calls [])).0 in
    ((write "risk" 2 (income_at 9 9 none) s).0 ≡ s)
    × (is_write (write "risk" 2 (income_at 9 9 none) s).1 ≡ false)
write-write_self_example = write-write_self "risk" 2 (income_at 9 9 none) (write_all calls [])

decide_write-DecidedBy_example :
    (decide_write (5, 6) none (some (5, 7)) none none none ≡ skipped_stale)
    ↔ DecidedBy (5, 6) none (5, 7) none none none skipped_stale
decide_write-DecidedBy_example =
    decide_write-DecidedBy (5, 6) (5, 7) none none none none skipped_stale
