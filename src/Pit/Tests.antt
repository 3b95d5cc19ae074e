-- ===== src/Pit/Tests.antt =====
-- Runs of the point-in-time selection, and its theorems at a small history.
use clearfeature.Prelude.{ℕ, ◌≡◌, refl, none, some, [], ◌∷◌, ◌++◌, In, Option, arith, ok, pos}
use clearfeature.Domain.{aware, encode}
use clearfeature.Offline.{OfflineRecord, OfflineStore}
use clearfeature.Pit.{effective_available, select_pit, get_pit}
use clearfeature.Pit.Select.{Eligible, Selected, count_future, select_pit-Selected}
use clearfeature.Pit.Store.{IsAsked, get_pit_no_leakage, get_pit-append}
use clearfeature.Samples.{user, income_at}

abbrev row : ℕ → ℕ → OfflineRecord ℕ
row data_ts calc_ts = record {
  view = "risk";
  view_version = 2;
  result = income_at data_ts calc_ts none;
}

abbrev history : OfflineStore ℕ
history = row 3 4 ∷ row 5 9 ∷ row 4 4 ∷ row 12 13 ∷ []

read_at_eight : get_pit user "income" 1 "risk" 2 (aware 8) (pos 2) history ≡ ok (some (row 4 4))
unfolding get_pit encode
read_at_eight = refl

select_pit-Selected_example :
    (selected : Option (OfflineRecord ℕ)) × (select_pit history (aware 8) (pos 2)
      ≡ ok (selected, count_future 8 history))
    × Selected 8 2 (omega arith) history selected
select_pit-Selected_example = select_pit-Selected 8 2 (omega arith) history

get_pit_no_leakage_example :
    In (row 4 4) history × IsAsked user "income" 1 "risk" 2 (row 4 4) × Eligible 8 2 (row 4 4)
get_pit_no_leakage_example =
    get_pit_no_leakage user "income" 1 "risk" 2 8 2 (omega arith) history (row 4 4) read_at_eight

get_pit-append_example :
    get_pit user "income" 1 "risk" 2 (aware 8) (pos 2) (history ++ row 6 9 ∷ [])
    ≡ get_pit user "income" 1 "risk" 2 (aware 8) (pos 2) history
unfolding effective_available
get_pit-append_example =
    get_pit-append user "income" 1 "risk" 2 8 2 (omega arith) history (row 6 9 ∷ [])
      (omega arith, tt)
