-- ===== src/Propagation/Wave.antt =====
-- fs_core/propagation.py: which updates are announced, and the dependents that an update makes stale.
-- The identifiers that `uuid4` makes and the clock are arguments.
use Prim.Native.String.{compare}
use Prim.Native.Nat.{Ordering}
use clearfeature.Prelude.{
  ℕ, suc, String, Bool, true, false, ◌&&◌, Option, none, some, List, [], ◌∷◌, ◌++◌, ltb, is_some,
  ◌==◌, if◌then◌else◌, str_eq, Dict, string_key, lookup, insert, Result, ok, err, ◌>>=◌,
}
use clearfeature.Domain.{FeatureResult, DateTime, aware, dict_of}
use clearfeature.Domain.KeyCodec.{KeyCodecError}
use clearfeature.Json.Reading.{JsonError}
use clearfeature.Registry.{FeatureDependency, FeatureDef, FeatureViewDef, Registry}
use clearfeature.Registry.States.{Propagation, reactive}
use clearfeature.Registry.Validator.{features_by_name}
use clearfeature.Events.Updated.{FeatureUpdated, feature_updated, checked}
use clearfeature.Propagation.{RecomputeCandidate, encoded}

abbrev pub is_reactive : Propagation → Bool
is_reactive reactive = true
is_reactive _ = false

-- `find_view`
unfoldable pub find_view : String → ℕ → List FeatureViewDef → Option FeatureViewDef
find_view view view_version [] = none
find_view view view_version (v ∷ vs) =
    if str_eq v.name view && (v.view_version == view_version)
    then some v
    else find_view view view_version vs

-- The name of a dependent, and its edge.
abbrev pub Edge : Type 0
Edge = String × FeatureDependency

abbrev pub Index : Type 0
Index = Dict String (List Edge)

abbrev pub or_empty : Option (List Edge) → List Edge
or_empty none = []
or_empty (some edges) = edges

-- `index.setdefault(input, []).append(edge)`
unfoldable pub add_edge : String → Edge → Index → Index
unfolding lookup insert
add_edge input edge index = insert input (or_empty (lookup input index) ++ edge ∷ []) index

unfoldable pub index_deps : String → List FeatureDependency → Index → Index
unfolding add_edge
index_deps name [] index = index
index_deps name (d ∷ deps) index =
    index_deps name deps
      (if is_reactive d.propagation then add_edge d.feature (name, d) index else index)

unfoldable pub index_features : List FeatureDef → Index → Index
unfolding index_deps
index_features [] index = index
index_features (f ∷ fs) index = index_features fs (index_deps f.name f.deps index)

unfoldable pub reactive_dependents : FeatureViewDef → Index
unfolding index_features
reactive_dependents v = index_features v.features []

-- `name in features_with_reactive_dependents(view_def)`
unfoldable pub has_reactive_dependents : FeatureViewDef → String → Bool
unfolding reactive_dependents lookup
has_reactive_dependents v name = is_some (lookup name (reactive_dependents v))

-- The arguments of `build_feature_updated_events`, its view and results apart.
pub record Announcement : Type 0 where
  pub entity_type : String
  pub source : String
  pub run_id : Option String
  pub job_id : Option String
  pub manifest_id : Option String
  pub occurred_at : DateTime

abbrev pub aware? : Option ℕ → Option DateTime
aware? none = none
aware? (some t) = some (aware t)

module _ {V : Type 0} where
  unfoldable pub update_of :
      FeatureViewDef → Announcement → String → FeatureResult V → FeatureUpdated
  unfolding dict_of
  update_of v a update_id r = record {
    update_id = update_id;
    entity = record { entity_type = a.entity_type; entity_key = dict_of r.entity.parts [] };
    view = v.name;
    view_version = v.view_version;
    feature_name = r.ref.name;
    feature_version = r.ref.version;
    data_ts = aware r.data_ts;
    calc_ts = aware r.calc_ts;
    source = a.source;
    occurred_at = a.occurred_at;
    max_input_data_ts = aware? r.max_input_data_ts;
    input_fingerprint = r.input_fingerprint;
    value_hash = r.value_hash;
    run_id = a.run_id;
    job_id = a.job_id;
    manifest_id = a.manifest_id;
    event_type = feature_updated;
    event_version = 1;
  }

  -- `build_feature_updated_events`; the n-th event that is made has the n-th identifier.
  unfoldable pub build_feature_updated_events :
      FeatureViewDef
      → Announcement
      → (ℕ → String)
      → ℕ
      → List (FeatureResult V)
      → Result JsonError (List FeatureUpdated)
  unfolding has_reactive_dependents update_of checked
  build_feature_updated_events v a uuid n [] = ok []
  build_feature_updated_events v a uuid n (r ∷ rs) =
      let skipped = build_feature_updated_events v a uuid n rs in
      let later = build_feature_updated_events v a uuid (suc n) rs in
      if has_reactive_dependents v r.ref.name
      then (do event ← checked (update_of v a (uuid n) r); events ← later; ok (event ∷ events))
      else skipped

-- The messages of `publish_feature_updates`: each event under the key of its entity.
unfoldable pub feature_update_messages :
    List FeatureUpdated → Result KeyCodecError (List (String × FeatureUpdated))
unfolding encoded
feature_update_messages [] = ok []
feature_update_messages (e ∷ es) = do
  key ← encoded e.entity
  messages ← feature_update_messages es
  ok ((key, e) ∷ messages)

-- Python's KeyError of `features_by_name[dependent_name]`
pub data WaveError : Type 0 where
  missing_dependent : String → WaveError

abbrev pub or_version : Option ℕ → ℕ → ℕ
or_version none version = version
or_version (some pin) version = pin

abbrev pub candidate_of : FeatureUpdated → String → FeatureDef → RecomputeCandidate
candidate_of event name dependent = record {
  entity = event.entity;
  view = event.view;
  view_version = event.view_version;
  dependent_feature = name;
  dependent_version = dependent.feature_version;
  changed_input_feature = event.feature_name;
  changed_input_version = event.feature_version;
  policy = "reactive";
  reason = "reactive_edge";
}

abbrev pub known : String → Option FeatureDef → Result WaveError FeatureDef
known name none = err (missing_dependent name)
known name (some f) = ok f

-- The loop over the edges of the updated feature.
unfoldable pub candidates_of :
    FeatureUpdated → Dict String FeatureDef → List Edge → Result WaveError (List RecomputeCandidate)
candidates_of event by_name [] = ok []
candidates_of event by_name ((name, d) ∷ edges) = do
  dependent ← known name (lookup name by_name)
  later ← candidates_of event by_name edges
  ok (
      if or_version d.version event.feature_version == event.feature_version
      then candidate_of event name dependent ∷ later
      else later)

-- The order of the tuples `(c.dependent_feature, c.dependent_version)`
abbrev pub comes_before : RecomputeCandidate → RecomputeCandidate → Bool
comes_before a b = elim (compare a.dependent_feature b.dependent_feature) [
  | Ordering.lt ↦ true
  | Ordering.eq ↦ ltb a.dependent_version b.dependent_version
  | Ordering.gt ↦ false
]

-- `sort` is stable: a candidate stays before its equals.
unfoldable pub insert_candidate :
    RecomputeCandidate → List RecomputeCandidate → List RecomputeCandidate
insert_candidate c [] = c ∷ []
insert_candidate c (b ∷ bs) = if comes_before b c then b ∷ insert_candidate c bs else c ∷ b ∷ bs

unfoldable pub sort_candidates : List RecomputeCandidate → List RecomputeCandidate
unfolding insert_candidate
sort_candidates [] = []
sort_candidates (c ∷ cs) = insert_candidate c (sort_candidates cs)

abbrev pub plan_in_view :
    FeatureUpdated → Option FeatureViewDef → Result WaveError (List RecomputeCandidate)
plan_in_view event none = ok []
plan_in_view event (some v) = do
  candidates ←
      candidates_of event (features_by_name v.features)
        (or_empty (lookup event.feature_name (reactive_dependents v)))
  ok (sort_candidates candidates)

unfoldable pub plan_recompute_wave :
    Registry → FeatureUpdated → Result WaveError (List RecomputeCandidate)
plan_recompute_wave registry event =
    plan_in_view event (find_view event.view event.view_version registry.feature_views)
