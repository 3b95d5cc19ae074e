-- ===== src/Pit/Store.antt =====
-- fs_core/stores/offline.py: point-in-time reads of the history.
use mathlib.Core.Path.{subst, ◌∙◌}
use clearfeature.Prelude.{
  ℕ, ◌≤◌, ◌<◌, String, ◌≡◌, refl, sym, ap, Option, some, List, ◌∷◌, ◌++◌, In, All, All-map, arith,
  ok, pos, true, eq_iff, In-append_right, inl,
}
use clearfeature.Domain.{EntityKey, encode, aware}
use clearfeature.Offline.{
  OfflineRecord, OfflineStore, get, matches, In-get, get-append, All-get, one_feature,
}
use clearfeature.Pit.{effective_available, get_pit}
use clearfeature.Pit.Select.{
  Eligible, Selected, selected_of, selected_of-append, selected_of-Selected, select_pit-eq,
}

module _ {V : Type 0} where
  -- The row is of the entity, the feature and the view that were asked for.
  pub record IsAsked (entity : EntityKey) (name : String) (version : ℕ) (view : String)
      (view_version : ℕ) (r : OfflineRecord V) : Type 0 where
    pub same_entity : encode r.result.entity ≡ encode entity
    pub same_name : r.result.ref.name ≡ name
    pub same_version : r.result.ref.version ≡ version
    pub same_view : r.view ≡ view
    pub same_view_version : r.view_version ≡ view_version

  module _ (entity : EntityKey) (name : String) (version : ℕ) (view : String)
      (view_version : ℕ) where
    pub matches-IsAsked :
        (r : OfflineRecord V)
        → matches entity (one_feature name version view view_version) r ≡ true
        → IsAsked entity name version view view_version r
    unfolding matches
    matches-IsAsked r h = ground (
      arith,
      eq_iff (encode r.result.entity) (encode entity),
      eq_iff r.result.ref.name name,
      eq_iff r.view view,
    )

    abbrev rows : OfflineStore V → List (OfflineRecord V)
    rows s = get entity (one_feature name version view view_version) s

    module _ (t g : ℕ) (in_range : g ≤ t) where
      get_pit-eq :
          (s : OfflineStore V)
          → get_pit entity name version view view_version (aware t) (pos g) s
            ≡ ok (selected_of t g in_range (rows s))
      unfolding get_pit
      get_pit-eq s = rw (select_pit-eq t g in_range (rows s))

      -- No lookahead: a row that a read at `t` with gap `g` returns is in the history, is of the
      -- entity, feature, version and view that were asked for, was available by `t`, and its data
      -- is at least `g` older than `t`.
      pub get_pit_no_leakage :
          (s : OfflineStore V) (r : OfflineRecord V)
          → get_pit entity name version view view_version (aware t) (pos g) s ≡ ok (some r)
          → In r s × IsAsked entity name version view view_version r × Eligible t g r
      get_pit_no_leakage s r h =
          let e : selected_of t g in_range (rows s) ≡ some r = cc (get_pit-eq s, h) in
          let latest =
            subst (λ (o : Option (OfflineRecord V)). Selected t g in_range (rows s) o) e
              (selected_of-Selected t g in_range (rows s)) in
          let listed : In r (rows s) =
            rw latest.split (In-append_right r latest.before (r ∷ latest.after) (inl refl)) in
          let found = In-get entity (one_feature name version view view_version) s r listed in
          (found.0, matches-IsAsked r found.1, latest.eligible)

      -- Reproducible: at a time that is aware and with a gap that does not pass it, rows appended
      -- later, none of which was available by `t`, do not change what a read at `t` returns.
      pub get_pit-append :
          (s later : OfflineStore V)
          → All (λ r. t < effective_available r.result) later
          → get_pit entity name version view view_version (aware t) (pos g) (s ++ later)
            ≡ get_pit entity name version view view_version (aware t) (pos g) s
      get_pit-append s later h =
          let f = one_feature name version view view_version in
          let too_late =
            All-get (λ (r : OfflineRecord V). ¬ Eligible t g r) entity f later
              (All-map later (λ r k el. omega arith) h) in
          get_pit-eq (s ++ later)
          ∙ ap (λ l. ok (selected_of t g in_range l)) (get-append entity f s later)
          ∙ ap ok (selected_of-append t g in_range (rows s) (rows later) too_late)
          ∙ sym (get_pit-eq s)
