-- ===== src/Registry/Graph/Closure.antt =====
-- fs_core/registry/validator.py: dependencies of any depth in a registry that passed.
use clearfeature.Prelude.{
  ◌<◌, String, ◌≡◌, sym, ◌∙◌, ap, List, map, In, All→In, IsUnique, arith, lookup, string_key, ok,
}
use clearfeature.Registry.{FeatureDependency, FeatureDef, FeatureViewDef, Registry, live}
use clearfeature.Registry.Names.{names, lookup-features_by_name}
use clearfeature.Registry.Validator.{validate_registry, features_by_name}
use clearfeature.Registry.Graph.Accepted.{IsSoundView, validate_registry-IsSoundView}

-- `t` is named by an edge of `f`, or by one of a feature that `f` reaches.
pub data Reaches (features : List FeatureDef) (f : FeatureDef) : FeatureDef → Type 0 where
  direct :
      {t : FeatureDef} (d : FeatureDependency)
      → In d f.deps
      → In t features
      → t.name ≡ d.feature
      → Reaches features f t
  further :
      {g t : FeatureDef} (d : FeatureDependency)
      → Reaches features f g
      → In d g.deps
      → In t features
      → t.name ≡ d.feature
      → Reaches features f t

same_name :
    (features : List FeatureDef) (f g : FeatureDef)
    → IsUnique (names features)
    → In f features
    → In g features
    → f.name ≡ g.name
    → f ≡ g
same_name features f g u i j e = cc (
  lookup-features_by_name features f u i,
  lookup-features_by_name features g u j,
  ap (λ (n : String). lookup n (features_by_name features)) e,
)

module _ (sources : List String) (v : FeatureViewDef) (s : IsSoundView sources v) where
  edge :
      (f t : FeatureDef) (d : FeatureDependency)
      → In f v.features
      → In d f.deps
      → In t v.features
      → t.name ≡ d.feature
      → (s.rank t.name < s.rank f.name) × (f.lifecycle ≡ live → t.lifecycle ≡ live)
  edge f t d i j k e =
      let sound = All→In _ v.features s.features f i in
      let (t', target) = All→In _ f.deps sound.targets d j in
      let same = same_name v.features t' t s.unique target.listed k (target.named ∙ sym e) in
      (
        omega (arith, All→In _ f.deps sound.falling d j, ap s.rank e),
        λ l. ap (λ (g : FeatureDef). g.lifecycle) (sym same) ∙ target.live_on_live l,
      )

  reaches :
      {f t : FeatureDef}
      → In f v.features
      → Reaches v.features f t
      → In t v.features
        × (s.rank t.name < s.rank f.name)
        × (f.lifecycle ≡ live → t.lifecycle ≡ live)
  reaches {f} {t} i (direct d j k e) = let (lt, l) = edge f t d i j k e in (k, lt, l)
  reaches {f} {t} i (further {g = g} d r j k e) =
      let (i', lt, l) = reaches i r in
      let (lt', l') = edge g t d i' j k e in (k, omega arith, λ was. l' (l was))

module _ (r : Registry) (passed : validate_registry r ≡ ok tt) (v : FeatureViewDef)
    (in_view : In v r.feature_views) (f : FeatureDef) (listed : In f v.features) where
  abbrev sound_view : IsSoundView (map (λ s. s.name) r.sources) v
  sound_view = All→In _ r.feature_views (validate_registry-IsSoundView r passed) v in_view

  -- No feature of a registry that passed depends on itself, over any number of edges.
  pub validate_registry_acyclic : ¬ Reaches v.features f f
  validate_registry_acyclic loop = omega (arith, (reaches _ v sound_view listed loop).1)

  -- In a registry that passed, all that a live feature depends on, over any number of edges, is a
  -- live feature of its view.
  pub validate_registry_live_closed :
      (t : FeatureDef)
      → f.lifecycle ≡ live
      → Reaches v.features f t
      → In t v.features × (t.lifecycle ≡ live)
  validate_registry_live_closed t l path =
      let (i, _, live') = reaches _ v sound_view listed path in (i, live' l)
