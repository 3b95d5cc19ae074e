-- ===== src/Events/Item.antt =====
-- `BatchItem` of fs_core/events/models.py.
use clearfeature.Prelude.{String, ◌≡◌, refl, [], ◌∷◌, Dict, Result, ok, ◌>>=◌}
use clearfeature.Json.{text, object, Fields, fields, find}
use clearfeature.Json.Reading.{
  JsonError, required, optional, defaulted, read_text, read_object, read_dict,
}
use clearfeature.Json.Nested.{dict_fields, read_dict-dict_fields}

pub record BatchItem : Type 0 where
  pub entity_type : String
  pub entity_key : Dict String String
  pub inline_sources : Dict String Fields
  pub source_refs : Dict String String

unfoldable pub to_dict : BatchItem → Fields
to_dict e = fields (
    ("entity_type", text e.entity_type)
    ∷ ("entity_key", object (dict_fields text e.entity_key))
    ∷ ("inline_sources", object (dict_fields object e.inline_sources))
    ∷ ("source_refs", object (dict_fields text e.source_refs))
    ∷ [])

unfoldable pub from_dict : Fields → Result JsonError BatchItem
unfolding required optional defaulted
from_dict data_fields = do
  entity_type ← required read_text "entity_type" data_fields
  entity_key ← required (read_dict read_text) "entity_key" data_fields
  inline_sources ← defaulted (read_dict read_object) "inline_sources" [] data_fields
  source_refs ← defaulted (read_dict read_text) "source_refs" [] data_fields
  ok (record {
    entity_type = entity_type;
    entity_key = entity_key;
    inline_sources = inline_sources;
    source_refs = source_refs;
  })

-- Reading what was written gives the value back.
pub from_dict-to_dict : (e : BatchItem) → from_dict (to_dict e) ≡ ok e
unfolding to_dict from_dict find
from_dict-to_dict e =
    rw
      (
        read_dict-dict_fields text read_text (λ s. refl) e.entity_key,
        read_dict-dict_fields object read_object (λ s. refl) e.inline_sources,
        read_dict-dict_fields text read_text (λ s. refl) e.source_refs,
      )
      refl
