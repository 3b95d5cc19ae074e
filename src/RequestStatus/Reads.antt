-- ===== src/RequestStatus/Reads.antt =====
-- What the request status store of fs_core/stores/request_status.py gives back: the state after any
-- run of its operations, in which a call that raises leaves the store as it was.
use clearfeature.Prelude.{
  String, ◌≡◌, refl, sym, ◌∙◌, ap, Option, none, some, List, [], ◌∷◌, str_eq-cases, inl, inr, All,
  All-insert_key, lookup, string_key, Result, ok, err, >>-eq-ok, >>=-eq-ok, ok-injective, none≢some,
  some-injective,
}
use clearfeature.Domain.{DateTime}
use clearfeature.Json.Times.{IsoFormat}
use clearfeature.Json.Reading.{JsonError}
use clearfeature.RequestStatus.{
  RequestStatus, Changes, Store, post_init, make, replaced, apply_changes, present, arguments,
  created, maybe_create, put, get, update, update_found, update_missing,
}
use clearfeature.RequestStatus.Forms.{to_dict, from_dict, from_dict-to_dict}

pub data Operation : Type 0 where
  -- `put(RequestStatus(...))`
  putting : RequestStatus → Operation
  -- `update(request_id, **changes)` at a time
  updating : String → Changes → DateTime → Operation

abbrev pub put_if : {E : Type 0} → Result E RequestStatus → Store → Store
put_if (err _) s = s
put_if (ok r) s = put r s

abbrev pub store_or : {E A : Type 0} → Store → Result E (Store × A) → Store
store_or s (err _) = s
store_or s (ok (s', _)) = s'

unfoldable pub step : Operation → Store → Store
unfolding put update post_init
step (putting r) s = put_if (make r) s
step (updating id c now) s = store_or s (update id c now s)

unfoldable pub run : List Operation → Store → Store
unfolding step
run [] s = s
run (o ∷ os) s = run os (step o s)

abbrev IsKeptAt : String → RequestStatus → Type 0
IsKeptAt id r = (r.request_id ≡ id) × (post_init r ≡ ok tt)

abbrev IsKept : Store → Type 0
IsKept s = All (λ e. IsKeptAt e.0 e.1) s

make-eq-ok : (r made : RequestStatus) → make r ≡ ok made → (made ≡ r) × (post_init made ≡ ok tt)
make-eq-ok r made h =
    let (passed, same) = >>-eq-ok (post_init r) (ok r) h in
    (sym (ok-injective same), rw (← ok-injective same) passed)

arguments-request_id :
    (id : String) (c : Changes) (now : DateTime) (r : RequestStatus)
    → arguments id c now ≡ ok r
    → r.request_id ≡ id
unfolding arguments
arguments-request_id id c now r h =
    let (_, _, h1) = >>=-eq-ok (present c.job_id) _ h in
    let (_, _, h2) = >>=-eq-ok (present c.status) _ h1 in
    let (_, _, h3) = >>=-eq-ok (present c.entity_type) _ h2 in
    let (_, _, h4) = >>=-eq-ok (present c.entity_key) _ h3 in
    let (_, _, h5) = >>=-eq-ok (present c.view) _ h4 in
    let (_, _, h6) = >>=-eq-ok (present c.view_version) _ h5 in rw (← ok-injective h6) refl

created-IsKeptAt :
    (id : String) (o : Result (Unit {0}) RequestStatus) (r : RequestStatus)
    → ((a : RequestStatus) → o ≡ ok a → a.request_id ≡ id)
    → created o ≡ ok (some r)
    → IsKeptAt id r
created-IsKeptAt id (err _) r named h = absurd (none≢some (ok-injective h))
created-IsKeptAt id (ok a) r named h =
    let (made, was_made, put) = >>=-eq-ok (make a) _ h in
    let (same, passed) = make-eq-ok a made was_made in
    let is_r = some-injective (ok-injective put) in
    (ap (λ (q : RequestStatus). q.request_id) (sym is_r ∙ same) ∙ named a refl, rw (← is_r) passed)

apply_changes-IsKeptAt :
    (id : String) (existing merged : RequestStatus) (c : Changes) (now : DateTime)
    → existing.request_id ≡ id
    → apply_changes existing c now ≡ ok merged
    → IsKeptAt id merged
unfolding apply_changes replaced
apply_changes-IsKeptAt id existing merged c now named h =
    let (same, passed) = make-eq-ok (replaced existing c now) merged h in
    (ap (λ (q : RequestStatus). q.request_id) same ∙ named, passed)

lookup-IsKeptAt :
    (id : String) (s : Store) (r : RequestStatus) → IsKept s → lookup id s ≡ some r → IsKeptAt id r
unfolding lookup
lookup-IsKeptAt id [] r kept h = absurd (none≢some h)
lookup-IsKeptAt id ((other, a) ∷ s) r kept h = elim (str_eq-cases other id) [
  | inl (t, e) ↦ rw (← e, ← some-injective (rw t at h)) kept.0
  | inr (f, _) ↦ lookup-IsKeptAt id s r kept.1 (rw f at h)
]

update_missing-IsKept :
    (id : String) (new : Option RequestStatus) (s : Store)
    → ((r : RequestStatus) → new ≡ some r → IsKeptAt id r)
    → IsKept s
    → IsKept (update_missing id new s).0
unfolding update_missing
update_missing-IsKept id none s fine kept = kept
update_missing-IsKept id (some r) s fine kept = All-insert_key IsKeptAt id r s (fine r refl) kept

update_found-IsKept :
    (id : String) (c : Changes) (now : DateTime) (old : Option RequestStatus) (s s' : Store)
    (answer : Option RequestStatus)
    → ((r : RequestStatus) → old ≡ some r → IsKeptAt id r)
    → IsKept s
    → update_found id c now old s ≡ ok (s', answer)
    → IsKept s'
unfolding update_found maybe_create
update_found-IsKept id c now none s s' answer fine kept h =
    let (new, was_new, put) = >>=-eq-ok (created (arguments id c now)) _ h in
    let of_new =
      update_missing-IsKept id new s
        (λ r e.
          created-IsKeptAt id (arguments id c now) r (arguments-request_id id c now)
            (was_new ∙ ap ok e))
        kept in
    rw (← ap (λ (p : Store × Option RequestStatus). p.0) (ok-injective put)) of_new
update_found-IsKept id c now (some existing) s s' answer fine kept h =
    let (merged, was_merged, put) = >>=-eq-ok (apply_changes existing c now) _ h in
    rw (← ap (λ (p : Store × Option RequestStatus). p.0) (ok-injective put)) (
      All-insert_key IsKeptAt id merged s
        (apply_changes-IsKeptAt id existing merged c now (fine existing refl).0 was_merged) kept)

store_or-IsKept :
    (s : Store) (result : Result JsonError (Store × Option RequestStatus))
    → IsKept s
    → ((s' : Store) (answer : Option RequestStatus) → result ≡ ok (s', answer) → IsKept s')
    → IsKept (store_or s result)
store_or-IsKept s (err _) kept after = kept
store_or-IsKept s (ok (s', answer)) kept after = after s' answer refl

put_if-IsKept :
    (result : Result JsonError RequestStatus) (s : Store)
    → ((r : RequestStatus) → result ≡ ok r → post_init r ≡ ok tt)
    → IsKept s
    → IsKept (put_if result s)
unfolding put
put_if-IsKept (err _) s fine kept = kept
put_if-IsKept (ok r) s fine kept = All-insert_key IsKeptAt r.request_id r s (refl, fine r refl) kept

step-IsKept : (o : Operation) (s : Store) → IsKept s → IsKept (step o s)
unfolding step update
step-IsKept (putting r) s kept = put_if-IsKept (make r) s (λ made h. (make-eq-ok r made h).1) kept
step-IsKept (updating id c now) s kept =
    store_or-IsKept s (update_found id c now (lookup id s) s) kept (λ s' answer h.
      update_found-IsKept id c now (lookup id s) s s' answer
        (λ r found. lookup-IsKeptAt id s r kept found) kept h)

run-IsKept : (os : List Operation) (s : Store) → IsKept s → IsKept (run os s)
unfolding run
run-IsKept [] s kept = kept
run-IsKept (o ∷ os) s kept = run-IsKept os (step o s) (step-IsKept o s kept)

module _ ⦃times : IsoFormat⦄ where
  -- Whatever the store was told since it was empty, the calls that raised included, a status that it
  -- returns for a request is that request's, and reading its JSON form gives it back as it was.
  pub get-run :
      (os : List Operation) (id : String) (r : RequestStatus)
      → get id (run os []) ≡ some r
      → (r.request_id ≡ id) × (from_dict (to_dict r) ≡ ok r)
  unfolding get
  get-run os id r found =
      let (named, passed) = lookup-IsKeptAt id (run os []) r (run-IsKept os [] tt) found in
      (named, from_dict-to_dict r passed)
