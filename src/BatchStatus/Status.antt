-- ===== src/BatchStatus/Status.antt =====
-- fs_core/stores/batch_status.py: the status of a job, described by the states of its chunks.
use clearfeature.Prelude.{
  ℕ, ◌≤◌, ◌<◌, ◌≡◌, refl, ◌↔◌, true, false, List, [], ◌∷◌, length, all, any, All, arith, any-All,
  all-All,
}
use clearfeature.BatchStatus.{
  State, accepted, running, completed, completed_with_errors, failed, other, is_terminal, is_open,
  is_failed, has_errors, is_accepted, derive_status,
}

pub record StatusOf (ss : List State) (chunk_count : ℕ) (s : State) : Type 0 where
  pub finished :
      (is_terminal s ≡ true) ↔ ((chunk_count ≤ length ss) × All (λ c. is_open c ≡ false) ss)
  pub all_failed : (s ≡ failed) ↔ ((chunk_count ≤ length ss) × All (λ c. is_failed c ≡ true) ss)
  pub some_accepted :
      (s ≡ accepted)
      ↔ ((0 < length ss) × (chunk_count ≡ length ss) × All (λ c. is_accepted c ≡ true) ss)
  pub clean : (s ≡ completed) ↔ (
      (0 < length ss)
      × (chunk_count ≤ length ss)
      × All (λ c. is_open c ≡ false) ss
      × All (λ c. has_errors c ≡ false) ss)

failed-closed : (ss : List State) → all is_failed ss ≡ true → any is_open ss ≡ false
failed-closed [] h = refl
failed-closed (failed ∷ ss) h = failed-closed ss h
failed-closed (accepted ∷ ss) h = cc
failed-closed (running ∷ ss) h = cc
failed-closed (completed ∷ ss) h = cc
failed-closed (completed_with_errors ∷ ss) h = cc
failed-closed (other _ ∷ ss) h = cc

accepted-open :
    (ss : List State) → 0 < length ss → all is_accepted ss ≡ true → any is_open ss ≡ true
accepted-open [] n h = absurd (omega arith)
accepted-open (accepted ∷ ss) n h = refl
accepted-open (running ∷ ss) n h = refl
accepted-open (failed ∷ ss) n h = cc
accepted-open (completed ∷ ss) n h = cc
accepted-open (completed_with_errors ∷ ss) n h = cc
accepted-open (other _ ∷ ss) n h = cc

clean-not_failed :
    (ss : List State) → 0 < length ss → any has_errors ss ≡ false → all is_failed ss ≡ false
clean-not_failed [] n h = absurd (omega arith)
clean-not_failed (failed ∷ ss) n h = cc
clean-not_failed (accepted ∷ ss) n h = refl
clean-not_failed (running ∷ ss) n h = refl
clean-not_failed (completed ∷ ss) n h = refl
clean-not_failed (completed_with_errors ∷ ss) n h = refl
clean-not_failed (other _ ∷ ss) n h = refl

all-empty : (ss : List State) → all is_failed ss ≡ false → 0 < length ss
all-empty [] h = cc
all-empty (s ∷ ss) h = omega arith

-- The status of a job in the states of its chunks: finished where there are enough chunks and none
-- is open; failed where there are enough and all failed; accepted where there are exactly enough,
-- at least one, and all are accepted; completed where there is at least one, there are enough,
-- none is open and none failed or has errors.
pub derive_status-StatusOf : (ss : List State) (n : ℕ) → StatusOf ss n (derive_status ss n)
unfolding derive_status is_terminal
derive_status-StatusOf ss n = record {
  finished = ground (arith, any-All is_open ss, all-All is_failed ss);
  all_failed = ground (arith, failed-closed ss, all-All is_failed ss);
  some_accepted = ground (arith, accepted-open ss, all-All is_accepted ss);
  clean =
      ground (arith, all-empty ss, clean-not_failed ss, any-All is_open ss, any-All has_errors ss);
}
