-- ===== src/Dedup/Rerun.antt =====
-- fs_core/dedup.py: a run that is repeated appends nothing.
use clearfeature.Prelude.{
  ℕ, String, ◌≡◌, refl, inl, inr, true, Option, none, some, List, [], ◌∷◌, ◌++◌, In,
  In-append_right, All, length, arith, any, any-In, any-append_left, ==_iff, eq_iff, str_eq_self,
  Bool-cases,
}
use clearfeature.Domain.{FeatureResult, encode, trusted_available_at}
use clearfeature.Offline.{
  OfflineStore, append_many, get, get-In, get-append, matches, one_feature, rows, append_many-rows,
  In-rows,
}
use clearfeature.Dedup.{
  Values, Signature, eq_signature, same_text, same_number, agrees_text, agrees_number, signature,
  same_fingerprint, same_availability, is_duplicate, exists_in_offline, partition_from,
  partition_new_results,
}

module _ {V : Type 0} (values : Values V) where
  same_text_self : (a : Option String) → same_text a a ≡ true
  same_text_self none = refl
  same_text_self (some a) = str_eq_self a

  same_number_self : (a : Option ℕ) → same_number a a ≡ true
  same_number_self none = refl
  same_number_self (some a) = ground (arith, ==_iff a a)

  eq_signature_self : (s : Signature) → eq_signature s s ≡ true
  eq_signature_self s =
      rw
        (
          str_eq_self s.entity,
          str_eq_self s.name,
          str_eq_self s.value_token,
          same_text_self s.input_fingerprint,
          same_number_self s.trusted_at,
          (==_iff s.version s.version).1 refl,
          (==_iff s.data_ts s.data_ts).1 refl,
        )
        refl

  same→agrees_text : (a b : Option String) → same_text a b ≡ true → agrees_text b a ≡ true
  same→agrees_text none none h = refl
  same→agrees_text none (some b) h = cc
  same→agrees_text (some a) none h = cc
  same→agrees_text (some a) (some b) h = rw ((eq_iff a b).0 h) (str_eq_self b)

  same→agrees_number : (a b : Option ℕ) → same_number a b ≡ true → agrees_number b a ≡ true
  same→agrees_number none none h = refl
  same→agrees_number none (some b) h = cc
  same→agrees_number (some a) none h = cc
  same→agrees_number (some a) (some b) h = ground arith

  -- Results whose values are equal where their texts are. NaN, which is not equal to itself, and
  -- objects that `default=str` gives the text of another value, are none.
  abbrev pub IsComparable : List (FeatureResult V) → Type 0
  IsComparable rs =
      (q r : FeatureResult V)
      → In q rs
      → In r rs
      → values.token q.value ≡ values.token r.value
      → values.eq q.value r.value ≡ true

  -- A row with the signature of `r` is found as its duplicate.
  matches-signature :
      (view : String) (view_version : ℕ) (q r : FeatureResult V)
      → (values.token q.value ≡ values.token r.value → values.eq q.value r.value ≡ true)
      → eq_signature (signature values r) (signature values q) ≡ true
      → (matches r.entity
            (one_feature r.ref.name r.ref.version view view_version)
            (record { view = view; view_version = view_version; result = q })
          ≡ true)
        × (is_duplicate values q r ≡ true)
  unfolding matches is_duplicate signature same_fingerprint same_availability
  matches-signature view view_version q r comparable h = ground (
    arith,
    eq_iff (encode q.entity) (encode r.entity),
    eq_iff (encode r.entity) (encode q.entity),
    eq_iff q.ref.name r.ref.name,
    eq_iff r.ref.name q.ref.name,
    str_eq_self view,
    eq_iff (values.token r.value) (values.token q.value),
    comparable,
    same→agrees_text r.input_fingerprint q.input_fingerprint,
    same→agrees_number (trusted_available_at r) (trusted_available_at q),
  )

  module _ (view : String) (view_version : ℕ) where
    exists-append :
        (s more : OfflineStore V) (r : FeatureResult V)
        → exists_in_offline values s view view_version r ≡ true
        → exists_in_offline values (s ++ more) view view_version r ≡ true
    unfolding exists_in_offline
    exists-append s more r h =
        rw (get-append r.entity (one_feature r.ref.name r.ref.version view view_version) s more) (
          any-append_left (λ x. is_duplicate values x.result r)
            (get r.entity (one_feature r.ref.name r.ref.version view view_version) s) _ h)

    exists-new :
        (s : OfflineStore V) (new : List (FeatureResult V)) (q r : FeatureResult V)
        → In q new
        → (values.token q.value ≡ values.token r.value → values.eq q.value r.value ≡ true)
        → eq_signature (signature values r) (signature values q) ≡ true
        → exists_in_offline values (s ++ rows view view_version new) view view_version r ≡ true
    unfolding exists_in_offline
    exists-new s new q r i comparable h =
        let (matched, duplicate) = matches-signature view view_version q r comparable h in
        any-In (λ x. is_duplicate values x.result r)
          (get r.entity (one_feature r.ref.name r.ref.version view view_version)
            (s ++ rows view view_version new))
          (record { view = view; view_version = view_version; result = q })
          (get-In r.entity (one_feature r.ref.name r.ref.version view view_version) _ _
            (In-append_right _ s _ (In-rows view view_version new q i)) matched)
          duplicate

    partition_from-In :
        (s : OfflineStore V) (seen : List Signature) (rs : List (FeatureResult V))
        (q : FeatureResult V)
        → In q (partition_from values s view view_version seen rs).0
        → In q rs
    unfolding partition_from
    partition_from-In s seen [] q i = i
    partition_from-In s seen (r ∷ rs) q i =
        elim (Bool-cases (any (eq_signature (signature values r)) seen)) [
          | inl again ↦ inr (partition_from-In s seen rs q (rw again at i))
          | inr unseen ↦ elim (Bool-cases (exists_in_offline values s view view_version r)) [
            | inl old ↦ inr (partition_from-In s seen rs q (rw (unseen, old) at i))
            | inr fresh ↦ elim (rw (unseen, fresh) at i) [
              | inl same ↦ inl same
              | inr j ↦ inr (partition_from-In s (signature values r ∷ seen) rs q j)
            ]
          ]
        ]

    -- `final` holds the history before, what was seen and what the run appends. `In r whole` says
    -- that `r` is of the run.
    partition_from-covers :
        (s final : OfflineStore V) (whole : List (FeatureResult V)) (seen : List Signature)
        (rs : List (FeatureResult V))
        → ((r : FeatureResult V) → In r rs → In r whole)
        → ((r : FeatureResult V)
            → exists_in_offline values s view view_version r ≡ true
            → exists_in_offline values final view view_version r ≡ true)
        → ((r : FeatureResult V)
            → In r whole
            → any (eq_signature (signature values r)) seen ≡ true
            → exists_in_offline values final view view_version r ≡ true)
        → ((q r : FeatureResult V)
            → In r whole
            → In q (partition_from values s view view_version seen rs).0
            → eq_signature (signature values r) (signature values q) ≡ true
            → exists_in_offline values final view view_version r ≡ true)
        → All (λ r. exists_in_offline values final view view_version r ≡ true) rs
    unfolding partition_from
    partition_from-covers s final whole seen [] within before met new = tt
    partition_from-covers s final whole seen (r ∷ rs) within before met new =
        let here = within r (inl refl) in
        let within' : (t : FeatureResult V) → In t rs → In t whole = λ t i. within t (inr i) in
        elim (Bool-cases (any (eq_signature (signature values r)) seen)) [
          | inl again ↦ (
            met r here again,
            partition_from-covers s final whole seen rs within' before met
                (λ q t w i e. new q t w (rw again i) e),
          )
          | inr unseen ↦ elim (Bool-cases (exists_in_offline values s view view_version r)) [
            | inl old ↦ (
              before r old,
              partition_from-covers s final whole seen rs within' before met
                  (λ q t w i e. new q t w (rw (unseen, old) i) e),
            )
            | inr fresh ↦ (
              new r r here (rw (unseen, fresh) (inl refl)) (eq_signature_self (signature values r)),
              partition_from-covers s final whole (signature values r ∷ seen) rs within' before
                  (λ t w e.
                    elim (Bool-cases (eq_signature (signature values t) (signature values r))) [
                      | inl same ↦ new r t w (rw (unseen, fresh) (inl refl)) same
                      | inr differs ↦ met t w (rw differs at e)
                    ])
                  (λ q t w i e. new q t w (rw (unseen, fresh) (inr i)) e),
            )
          ]
        ]

    partition_from-nothing_new :
        (s : OfflineStore V) (seen : List Signature) (rs : List (FeatureResult V))
        → All (λ r. exists_in_offline values s view view_version r ≡ true) rs
        → partition_from values s view view_version seen rs ≡ ([], length rs)
    unfolding partition_from
    partition_from-nothing_new s seen [] h = refl
    partition_from-nothing_new s seen (r ∷ rs) h =
        let rest = partition_from-nothing_new s seen rs h.1 in
        elim (Bool-cases (any (eq_signature (signature values r)) seen)) [
          | inl again ↦ rw (again, rest) refl
          | inr unseen ↦ rw (unseen, h.0, rest) refl
        ]

    -- A run of results whose values are equal where their JSON texts are, repeated after its new
    -- results were appended, skips every result.
    pub partition_new_results_rerun :
        (s : OfflineStore V) (rs : List (FeatureResult V))
        → IsComparable rs
        → partition_new_results values
            (append_many view view_version
              (partition_new_results values s view view_version rs).0
              s)
            view
            view_version
            rs
          ≡ ([], length rs)
    unfolding partition_new_results
    partition_new_results_rerun s rs comparable =
        let new = (partition_from values s view view_version [] rs).0 in
        rw (append_many-rows view view_version new s) (
          partition_from-nothing_new (s ++ rows view view_version new) [] rs (
            partition_from-covers s (s ++ rows view view_version new) rs [] rs (λ r i. i)
              (λ r h. exists-append s (rows view view_version new) r h) (λ r w h. cc)
              (λ q r w i h.
                exists-new s new q r i (comparable q r (partition_from-In s [] rs q i) w) h)))
