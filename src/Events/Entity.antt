-- ===== src/Events/Entity.antt =====
-- `EntityRef` of fs_core/events/models.py.
use clearfeature.Prelude.{String, ◌≡◌, refl, [], ◌∷◌, Dict, Result, ok, ◌>>=◌}
use clearfeature.Json.{text, object, Fields, fields, find}
use clearfeature.Json.Reading.{JsonError, required, optional, defaulted, read_text, read_dict}
use clearfeature.Json.Nested.{dict_fields, read_dict-dict_fields}

pub record EntityRef : Type 0 where
  pub entity_type : String
  pub entity_key : Dict String String

unfoldable pub to_dict : EntityRef → Fields
to_dict e = fields (
    ("entity_type", text e.entity_type)
    ∷ ("entity_key", object (dict_fields text e.entity_key))
    ∷ [])

unfoldable pub from_dict : Fields → Result JsonError EntityRef
unfolding required optional defaulted
from_dict data_fields = do
  entity_type ← required read_text "entity_type" data_fields
  entity_key ← required (read_dict read_text) "entity_key" data_fields
  ok (record { entity_type = entity_type; entity_key = entity_key })

-- Reading what was written gives the value back.
pub from_dict-to_dict : (e : EntityRef) → from_dict (to_dict e) ≡ ok e
unfolding to_dict from_dict find
from_dict-to_dict e = rw (read_dict-dict_fields text read_text (λ s. refl) e.entity_key) refl
