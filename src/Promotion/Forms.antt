-- ===== src/Promotion/Forms.antt =====
-- The JSON forms of pointers and records, fs_core/registry/promotion.py.
use clearfeature.Prelude.{
  String, ◌≡◌, ◌≢◌, refl, sym, ◌∙◌, ap, false, Option, none, some, [], ◌∷◌, str_eq, str_eq-cases,
  inl, inr, if◌then◌else◌, Result, ok, err, ◌>>=◌, none≢some,
}
use clearfeature.Domain.{DateTime}
use clearfeature.Json.{Json, null, text, bool, Fields, fields, find, texts}
use clearfeature.Json.Times.{IsoFormat}
use clearfeature.Json.Reading.{
  JsonError, mistyped, required, optional, defaulted, read_text, read_bool, read_list, read_time,
}
use clearfeature.Json.Nested.{value_or_null, optional_of-text, read_list-texts}
use clearfeature.Promotion.{EnvironmentPointer, PromotionRecord}

module _ ⦃times : IsoFormat⦄ where
  abbrev pub stamp : DateTime → Json
  stamp t = text (times.isoformat t)

  -- `datetime.fromisoformat(shadow) if shadow else None`, where `shadow` may be absent
  abbrev pub read_start : Option Json → Result JsonError (Option DateTime)
  read_start none = ok none
  read_start (some null) = ok none
  read_start (some (text s)) =
      if str_eq s "" then ok none else (do t ← read_time (text s); ok (some t))
  read_start (some _) = err mistyped

  unfoldable pub pointer_to_dict : EnvironmentPointer → Fields
  pointer_to_dict p = fields (
      ("env", text p.env)
      ∷ ("stage", text p.stage)
      ∷ ("bundle_digest", text p.bundle_digest)
      ∷ ("updated_at", stamp p.updated_at)
      ∷ ("shadow_started_at", value_or_null stamp p.shadow_started_at)
      ∷ ("previous_digest", value_or_null text p.previous_digest)
      ∷ [])

  unfoldable pub pointer_from_dict : Fields → Result JsonError EnvironmentPointer
  unfolding required optional find
  pointer_from_dict data_fields = do
    env ← required read_text "env" data_fields
    stage ← required read_text "stage" data_fields
    bundle_digest ← required read_text "bundle_digest" data_fields
    updated_at ← required read_time "updated_at" data_fields
    shadow_started_at ← read_start (find "shadow_started_at" data_fields)
    previous_digest ← optional read_text "previous_digest" data_fields
    ok (record {
      env = env;
      stage = stage;
      bundle_digest = bundle_digest;
      updated_at = updated_at;
      shadow_started_at = shadow_started_at;
      previous_digest = previous_digest;
    })

  unfoldable pub record_to_dict : PromotionRecord → Fields
  record_to_dict r = fields (
      ("promotion_id", text r.promotion_id)
      ∷ ("action", text r.action)
      ∷ ("env", text r.env)
      ∷ ("stage", text r.stage)
      ∷ ("bundle_digest", text r.bundle_digest)
      ∷ ("previous_digest", value_or_null text r.previous_digest)
      ∷ ("actor", text r.actor)
      ∷ ("reason", text r.reason)
      ∷ ("created_at", stamp r.created_at)
      ∷ ("approved_by", texts r.approved_by)
      ∷ ("profile", value_or_null text r.profile)
      ∷ ("shadow_started_at", value_or_null stamp r.shadow_started_at)
      ∷ ("shadow_age_override", bool r.shadow_age_override)
      ∷ ("override_reason", value_or_null text r.override_reason)
      ∷ [])

  unfoldable pub record_from_dict : Fields → Result JsonError PromotionRecord
  unfolding required optional defaulted find
  record_from_dict data_fields = do
    promotion_id ← required read_text "promotion_id" data_fields
    action ← required read_text "action" data_fields
    env ← required read_text "env" data_fields
    stage ← required read_text "stage" data_fields
    bundle_digest ← required read_text "bundle_digest" data_fields
    previous_digest ← optional read_text "previous_digest" data_fields
    actor ← required read_text "actor" data_fields
    reason ← required read_text "reason" data_fields
    created_at ← required read_time "created_at" data_fields
    approved_by ← defaulted (read_list read_text) "approved_by" [] data_fields
    profile ← optional read_text "profile" data_fields
    shadow_started_at ← read_start (find "shadow_started_at" data_fields)
    shadow_age_override ← defaulted read_bool "shadow_age_override" false data_fields
    override_reason ← optional read_text "override_reason" data_fields
    ok (record {
      promotion_id = promotion_id;
      action = action;
      env = env;
      stage = stage;
      bundle_digest = bundle_digest;
      previous_digest = previous_digest;
      actor = actor;
      reason = reason;
      created_at = created_at;
      approved_by = approved_by;
      profile = profile;
      shadow_started_at = shadow_started_at;
      shadow_age_override = shadow_age_override;
      override_reason = override_reason;
    })

  isoformat≢empty : (t : DateTime) → ◌≢◌ {A = String} (times.isoformat t) ""
  isoformat≢empty t e =
      none≢some (sym times.refuses_empty ∙ ap times.fromisoformat (sym e) ∙ times.parses t)

  stamp-back : (t : DateTime) → read_time (stamp t) ≡ ok t
  stamp-back t = rw (times.parses t) refl

  read_start-stamp : (o : Option DateTime) → read_start (some (value_or_null stamp o)) ≡ ok o
  read_start-stamp none = refl
  read_start-stamp (some t) = elim (str_eq-cases (times.isoformat t) "") [
    | inl (_, e) ↦ absurd (isoformat≢empty t e)
    | inr (f, _) ↦ rw (f, times.parses t) refl
  ]

  -- A pointer and an audit record that were written to JSON are each read back as they were.
  pub from_dict-to_dict_pointer :
      (p : EnvironmentPointer) (r : PromotionRecord)
      → (pointer_from_dict (pointer_to_dict p) ≡ ok p)
        × (record_from_dict (record_to_dict r) ≡ ok r)
  unfolding pointer_to_dict pointer_from_dict record_to_dict record_from_dict
  from_dict-to_dict_pointer p r = (
    rw
        (
          stamp-back p.updated_at,
          read_start-stamp p.shadow_started_at,
          optional_of-text p.previous_digest,
        )
        refl,
    rw
        (
          optional_of-text r.previous_digest,
          stamp-back r.created_at,
          read_list-texts r.approved_by,
          optional_of-text r.profile,
          read_start-stamp r.shadow_started_at,
          optional_of-text r.override_reason,
        )
        refl,
  )
