-- ===== src/Registry/States.antt =====
-- fs_core/registry/models.py: the enumerations, and how a raw status is read as a lifecycle.
use clearfeature.Prelude.{
  ℕ, String, ◌≡◌, refl, Bool, true, false, Option, none, some, List, [], ◌∷◌, if◌then◌else◌, str_eq,
  codes, strip, lower, codes_eq,
}

-- The `ValueError`s of the module, by what they report.
pub data RegistryError : Type 0 where
  empty_name duplicate_name no_key_fields unsupported_source bad_version negative_age :
      RegistryError
  unknown_propagation empty_model_field not_batch_only unsupported_kind empty_field : RegistryError
  unknown_lifecycle unexpected_model missing_udf no_inputs missing_model unexpected_udf :
      RegistryError
  raw_inputs no_dependencies score_with_inputs no_features bad_depth_cap empty_group : RegistryError
  empty_registry unknown_view : RegistryError

pub data Lifecycle : Type 0 where
  draft shadow live deprecated : Lifecycle

-- `PROPAGATION_NONE` is `never`.
pub data Propagation : Type 0 where
  lazy reactive scheduled never : Propagation

pub data Kind : Type 0 where
  udf model_score model : Kind

pub Lifecycle-discrete : Discrete Lifecycle
Lifecycle-discrete = hlevel

abbrev pub eq_lifecycle : Lifecycle → Lifecycle → Bool
eq_lifecycle draft draft = true
eq_lifecycle shadow shadow = true
eq_lifecycle live live = true
eq_lifecycle deprecated deprecated = true
eq_lifecycle _ _ = false

-- `FEATURE_LIFECYCLES` with `_LIFECYCLE_ALIASES`.
abbrev lifecycle_tokens : List (String × Lifecycle)
lifecycle_tokens =
    ("draft", draft)
    ∷ ("shadow", shadow)
    ∷ ("live", live)
    ∷ ("deprecated", deprecated)
    ∷ ("active", live)
    ∷ ("inactive", deprecated)
    ∷ ("disabled", deprecated)
    ∷ []

find_token : List ℕ → List (String × Lifecycle) → Option Lifecycle
unfolding codes codes_eq
find_token token [] = none
find_token token ((name, l) ∷ rest) =
    if codes_eq token (codes name) then some l else find_token token rest

unfoldable pub normalize_lifecycle : String → Option Lifecycle
unfolding codes strip lower find_token
normalize_lifecycle status = find_token (lower (strip (codes status))) lifecycle_tokens

-- `kind not in ("udf", "model_score", "model")`
unfoldable pub read_kind : String → Option Kind
read_kind s =
    if str_eq s "udf"
    then some udf
    else if str_eq s "model_score"
    then some model_score
    else if str_eq s "model"
    then some model
    else none

-- `propagation not in PROPAGATION_POLICIES`
unfoldable pub read_propagation : String → Option Propagation
read_propagation s =
    if str_eq s "lazy"
    then some lazy
    else if str_eq s "reactive"
    then some reactive
    else if str_eq s "scheduled"
    then some scheduled
    else if str_eq s "none"
    then some never
    else none

-- `ALLOWED_DEPENDENCY_LIFECYCLES`, by the depending feature's lifecycle and the target's.
unfoldable pub allowed_dependency : Lifecycle → Lifecycle → Bool
allowed_dependency live live = true
allowed_dependency shadow live = true
allowed_dependency shadow shadow = true
allowed_dependency draft live = true
allowed_dependency draft shadow = true
allowed_dependency draft draft = true
allowed_dependency deprecated _ = true
allowed_dependency _ _ = false

normalize_examples :
    (normalize_lifecycle " Active\t" ≡ some live)
    × (normalize_lifecycle "disabled" ≡ some deprecated)
    × (normalize_lifecycle "lives" ≡ none)
unfolding normalize_lifecycle
normalize_examples = (refl, refl, refl)
