-- ===== src/Consistency/Verdict.antt =====
-- fs_core/consistency.py over the two stores: what a check can find after the same results were
-- written to both.
use clearfeature.Prelude.{
  ℕ, ◌≤◌, String, ◌≡◌, refl, ap, ◌∙◌, ◌↔◌, ◌⊎◌, inl, inr, Bool, true, Option, none, some, List, [],
  ◌∷◌, ◌++◌, In, In-append, In-append_left, In-append_right, All, All→In, all, arith, leb, Dict,
  string_key, lookup, All-insert, Bool-cases, Option-cases, ok, >>=-eq-ok, Result,
}
use clearfeature.Domain.{EntityKey, FeatureResult}
use clearfeature.Offline.{OfflineRecord, OfflineStore, append, matches, In-get, get-In, one_feature}
use clearfeature.Offline
use clearfeature.Online.{
  OnlineKey, OnlineStore, online_key_key, key_eq, key_eq_iff, make_key, result_key, freshness,
}
use clearfeature.Online
use clearfeature.Online.Fresh.{Submission, key_of, write_all, write_all-IsFreshest}
use clearfeature.Online.Replay.{write_all-none}
use clearfeature.WriteGuard.{guard_tuple}
use clearfeature.WriteGuard.Order.{AtMost}
use clearfeature.Registry.{FeatureDef, FeatureViewDef}
use clearfeature.Registry.Validator.{features_by_name}
use clearfeature.Consistency.{
  ConsistencyStatus, consistent, missing_both, value_mismatch, ConsistencyError,
  FeatureConsistencyItem, FeatureConsistencyReport, latest_from, latest_offline, status_of,
  classify, check_feature, check_names, check_online_offline_consistency, is_consistent,
}

-- What the two stores hold under one key does not tell them apart by presence or by age.
abbrev pub IsInStep : ConsistencyStatus → Type 0
IsInStep s = (s ≡ missing_both) ⊎ (s ≡ consistent) ⊎ (s ≡ value_mismatch)

module _ {V : Type 0} where
  -- The row that a call of `append` with the same arguments leaves.
  abbrev pub appended_row : Submission V → OfflineRecord V
  appended_row w = record { view = w.view; view_version = w.view_version; result = w.result }

  -- The history after some calls of `append`, in their order.
  unfoldable pub append_all : List (Submission V) → OfflineStore V → OfflineStore V
  unfolding append
  append_all [] s = s
  append_all (w ∷ ws) s = append_all ws (append w.view w.view_version w.result s)

  -- The latest row is one of the rows, and none is newer.
  latest_from-some :
      (l : OfflineRecord V) (rs : List (OfflineRecord V))
      → (m : OfflineRecord V) × (latest_from (some l) rs ≡ some m)
        × ((m ≡ l) ⊎ In m rs)
        × (l.result.data_ts ≤ m.result.data_ts)
        × All (λ r. r.result.data_ts ≤ m.result.data_ts) rs
  unfolding latest_from
  latest_from-some l [] = (l, refl, inl refl, omega arith, tt)
  latest_from-some l (r ∷ rs) = elim (Bool-cases (leb l.result.data_ts r.result.data_ts)) [
    | inl later ↦
        let (m, e, at, le, all) = latest_from-some r rs in
        (
          m,
          rw later e,
          elim at [ inl p ↦ inr (inl p) | inr i ↦ inr (inr i) ],
          ground arith,
          (le, all),
        )
    | inr earlier ↦
        let (m, e, at, le, all) = latest_from-some l rs in
        (m, rw earlier e, elim at [ inl p ↦ inl p | inr i ↦ inr (inr i) ], le, (ground arith, all))
  ]

  In-append_all :
      (ws : List (Submission V)) (s : OfflineStore V) (r : OfflineRecord V)
      → In r (append_all ws s) ↔ (In r s ⊎ ((w : Submission V) × In w ws × (r ≡ appended_row w)))
  unfolding append_all append
  In-append_all [] s r = (λ i. inl i, λ h. elim h [ inl i ↦ i | inr (w, i, e) ↦ elim i [ ] ])
  In-append_all (w ∷ ws) s r =
      let (from, to) = In-append_all ws (s ++ appended_row w ∷ []) r in
      (
        λ i. elim (from i) [
          | inl j ↦ elim (In-append r s (appended_row w ∷ []) j) [
            | inl old ↦ inl old
            | inr (inl e) ↦ inr (w, inl refl, e)
            | inr (inr no_more) ↦ elim no_more [ ]
          ]
          | inr (c, j, e) ↦ inr (c, inr j, e)
        ],
        λ h. elim h [
          | inl old ↦ to (inl (In-append_left r s (appended_row w ∷ []) old))
          | inr (c, inl p, e) ↦
              to (inl (In-append_right r s (appended_row w ∷ []) (inl (e ∙ ap appended_row p))))
          | inr (c, inr j, e) ↦ to (inr (c, j, e))
        ],
      )

  matches-key_of :
      (entity : EntityKey) (name : String) (version : ℕ) (view : String) (view_version : ℕ)
      (w : Submission V)
      → (matches entity (one_feature name version view view_version) (appended_row w) ≡ true)
        ↔ (key_of w ≡ make_key view view_version entity name version)
  unfolding matches result_key make_key
  matches-key_of entity name version view view_version w =
      ground (arith, key_eq_iff (key_of w) (make_key view view_version entity name version))

  freshness-first : (a : FeatureResult V) → (freshness a).0 ≡ a.data_ts
  unfolding guard_tuple
  freshness-first a = ground arith

  AtMost-data_ts :
      (a b : FeatureResult V) → AtMost (freshness a) (freshness b) → a.data_ts ≤ b.data_ts
  AtMost-data_ts a b h = ground (arith, freshness-first a, freshness-first b)

  -- The newest row is as new as the stored result, and both are there or neither.
  verdict :
      (eq_value : V → V → Bool) (rs : List (OfflineRecord V)) (o : Option (FeatureResult V))
      → (o ≡ none → (r : OfflineRecord V) → ¬ In r rs)
      → ((q : FeatureResult V)
          → o ≡ some q
          → ((c : OfflineRecord V) × In c rs × (c.result.data_ts ≡ q.data_ts))
            × ((r : OfflineRecord V) → In r rs → r.result.data_ts ≤ q.data_ts))
      → IsInStep (status_of eq_value (latest_offline rs) o)
  unfolding status_of latest_offline latest_from
  verdict eq_value [] none absent present = inl refl
  verdict eq_value [] (some q) absent present = let ((c, i, e), _) = present q refl in elim i [ ]
  verdict eq_value (r ∷ rs) none absent present = absurd (absent refl r (inl refl))
  verdict eq_value (r ∷ rs) (some q) absent present =
      let (m, e, at, le, all_le) = latest_from-some r rs in
      let ((c, i, same), most) = present q refl in
      let m_le : m.result.data_ts ≤ q.data_ts =
        most m (elim at [ inl p ↦ inl p | inr j ↦ inr j ]) in
      let c_le : c.result.data_ts ≤ m.result.data_ts =
        All→In (λ r. r.result.data_ts ≤ m.result.data_ts) (r ∷ rs) (le, all_le) c i in
      rw e (ground (arith, m_le, c_le, same))

  module _ (eq_value : V → V → Bool) (ws : List (Submission V)) (view : FeatureViewDef)
      (view_version : ℕ) (entity : EntityKey) where
    check_feature-IsInStep :
        (name : String) (f : FeatureDef)
        → IsInStep
            (check_feature eq_value
              (append_all ws [])
              (write_all ws [])
              view
              view_version
              entity
              name
              f).status
    unfolding check_feature classify Online.get
    check_feature-IsInStep name f =
        let filter = one_feature name f.feature_version view.name view_version in
        let key = make_key view.name view_version entity name f.feature_version in
        let at_key = matches-key_of entity name f.feature_version view.name view_version in
        verdict eq_value (Offline.get entity filter (append_all ws []))
          (lookup key (write_all ws []))
          (λ absent r i. elim ((In-append_all ws [] r).0 (In-get entity filter _ r i).0) [
            | inl j ↦ elim j [ ]
            | inr (w, j, e) ↦
                (write_all-none key ws [] absent).1 w j
                  ((at_key w).0 (rw e at ((In-get entity filter _ r i).1)))
          ])
          (λ q held.
            let fresh = write_all-IsFreshest key ws q held in
            (
              (
                appended_row fresh.call,
                get-In entity filter _ _
                    ((In-append_all ws [] (appended_row fresh.call)).1
                      (inr (fresh.call, fresh.called, refl)))
                    ((at_key fresh.call).1 fresh.at_key),
                ap (λ (r : FeatureResult V). r.data_ts) fresh.its_result,
              ),
              λ r i. elim ((In-append_all ws [] r).0 (In-get entity filter _ r i).0) [
                | inl j ↦ elim j [ ]
                | inr (w, j, e) ↦ rw e (
                    AtMost-data_ts w.result q (
                      fresh.freshest w j ((at_key w).0 (rw e at ((In-get entity filter _ r i).1)))))
              ],
            ))

    check_names-IsInStep :
        (names : List String) (items got : Dict String (FeatureConsistencyItem V))
        → All (λ e. IsInStep e.1.status) items
        → check_names eq_value
            (append_all ws [])
            (write_all ws [])
            view
            view_version
            entity
            names
            items
          ≡ ok got
        → All (λ e. IsInStep e.1.status) got
    unfolding check_names
    check_names-IsInStep [] items got h p = let e : items ≡ got = cc in rw e at h
    check_names-IsInStep (name ∷ names) items got h p =
        elim (Option-cases (lookup name (features_by_name view.features))) [
          | inl missing ↦ cc (rw (missing, check_names) at p)
          | inr (f, known) ↦
              check_names-IsInStep names _ got
                (All-insert (λ i. IsInStep i.status) name _ items (check_feature-IsInStep name f) h)
                (rw (known, check_names) at p)
        ]

    -- After the same results were written to both stores, which were empty before, in one order, a
    -- check finds no feature that only one store has and none that is newer in one store.
    pub check_online_offline_consistency-IsInStep :
        (names : List String) (report : FeatureConsistencyReport V)
        → check_online_offline_consistency eq_value
            (append_all ws [])
            (write_all ws [])
            view
            view_version
            entity
            names
          ≡ ok report
        → All (λ e. IsInStep e.1.status) report.items
    unfolding check_online_offline_consistency
    check_online_offline_consistency-IsInStep names report h =
        let (items, first, last) =
          >>=-eq-ok
            (check_names eq_value (append_all ws []) (write_all ws []) view view_version entity
              names [])
            _ h in
        let e : ◌≡◌ {A = Result ConsistencyError (FeatureConsistencyReport V)}
            (ok (record { agrees = all (λ i. is_consistent i.1.status) items; items = items }))
            (ok report) =
          last in
        let made : record { agrees = all (λ i. is_consistent i.1.status) items; items = items }
            ≡ report =
          cc in
        let same : items ≡ report.items = ap (λ (o : FeatureConsistencyReport V). o.items) made in
        rw same at (check_names-IsInStep names [] items tt first)
