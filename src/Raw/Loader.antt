-- ===== src/Raw/Loader.antt =====
-- fs_core/raw/overlay.py and fs_core/raw/report_resolver.py: from the name of a source to the payload
-- of its report. A store of payloads and a repository are functions, whose missing value is the
-- KeyError.
use clearfeature.Prelude.{
  String, ◌≡◌, ◌↔◌, refl, sym, ◌∙◌, ap, Bool, false, not, Option, none, some, ◌⊎◌, inl, inr, str_eq,
  str_eq-cases, Dict, lookup, string_key, Result, ok, err, ◌>>=◌, ◌>>◌, reject_if, reject_if-eq-ok,
  >>-eq-ok, >>=-eq-ok, err≢ok, ok-injective, none≢some, some-injective, Option-cases,
}
use clearfeature.Raw.Meta.{RawReportMeta}

-- `self._overlay[key]` if it is there, and otherwise what the base holds.
abbrev pub over : {A : Type 0} → Option A → Option A → Option A
over (some a) base = some a
over none base = base

-- `OverlayRawPayloadStore.get_payload` and `OverlayRawReportMetaRepository.get_meta`
unfoldable pub overlaid : {A : Type 0} → Dict String A → (String → Option A) → String → Option A
unfolding lookup
overlaid overlay base key = over (lookup key overlay) (base key)

pub data LoadError : Type 0 where
  no_ref unknown_ref wrong_type no_payload : LoadError

abbrev pub found : {A : Type 0} → LoadError → Option A → Result LoadError A
found problem none = err problem
found problem (some a) = ok a

-- The report type that the source must have, if one is given.
abbrev pub is_wrong : Option String → RawReportMeta → Bool
is_wrong none meta = false
is_wrong (some expected) meta = not (str_eq meta.report_type expected)

abbrev pub expected_type : Option (Dict String String) → String → Option String
unfolding lookup
expected_type none name = none
expected_type (some types) name = lookup name types

found-eq-ok :
    {A : Type 0} (problem : LoadError) (o : Option A) (a : A) → found problem o ≡ ok a → o ≡ some a
found-eq-ok problem none a h = absurd (err≢ok h)
found-eq-ok problem (some b) a h = ap some (ok-injective h)

-- What a request's own reports and the stored ones hold together: a request's own hides the stored
-- one under the same key, and no other.
abbrev pub IsVisible : {A : Type 0} → Dict String A → (String → Option A) → String → A → Type 0
IsVisible overlay base key a =
    (lookup key overlay ≡ some a) ⊎ ((lookup key overlay ≡ none) × (base key ≡ some a))

overlaid-IsVisible :
    {A : Type 0} (overlay : Dict String A) (base : String → Option A) (key : String) (a : A)
    → (overlaid overlay base key ≡ some a) ↔ IsVisible overlay base key a
unfolding overlaid
overlaid-IsVisible overlay base key a = elim (Option-cases (lookup key overlay)) [
  | inl e ↦ rw e (λ h. inr (refl, h), λ h. elim h [ inl x ↦ absurd (none≢some x) | inr y ↦ y.1 ])
  | inr (b, e) ↦ rw e (λ h. inl h, λ h. elim h [ inl x ↦ x | inr y ↦ absurd (none≢some (sym y.0)) ])
]

-- The report is of the type that the registry gives the source, where it gives one.
abbrev pub IsTyped : Option (Dict String String) → String → RawReportMeta → Type 0
IsTyped expected_types name meta =
    (types : Dict String String) (t : String)
    → expected_types ≡ some types
    → lookup name types ≡ some t
    → meta.report_type ≡ t

is_wrong-IsTyped_of :
    (expected : Option String) (meta : RawReportMeta)
    → (is_wrong expected meta ≡ false) ↔ ((t : String) → expected ≡ some t → meta.report_type ≡ t)
is_wrong-IsTyped_of none meta = (λ _ t e. absurd (none≢some e), λ _. refl)
is_wrong-IsTyped_of (some expected) meta = elim (str_eq-cases meta.report_type expected) [
  | inl (t, e) ↦ rw t (λ _ u eq. e ∙ some-injective eq, λ _. refl)
  | inr (f, ne) ↦ rw f (λ h. cc, λ h. absurd (ne (h expected refl)))
]

is_wrong-IsTyped :
    (expected_types : Option (Dict String String)) (name : String) (meta : RawReportMeta)
    → (is_wrong (expected_type expected_types name) meta ≡ false) ↔ IsTyped expected_types name meta
unfolding expected_type
is_wrong-IsTyped none name meta = (λ _ types t e. absurd (none≢some e), λ _. refl)
is_wrong-IsTyped (some types) name meta =
    let of_type = is_wrong-IsTyped_of (lookup name types) meta in
    (
      λ h others t e found. of_type.0 h t (ap (lookup name) (some-injective e) ∙ found),
      λ h. of_type.1 (λ t found. h types t refl found),
    )

-- The reports that a request brings along, the stored ones, and what it asks of its sources.
pub record Reports (P : Type 0) : Type 0 where
  pub payloads : Dict String P
  pub stored_payload : String → Option P
  pub metas : Dict String RawReportMeta
  pub stored_meta : String → Option RawReportMeta
  pub source_refs : Dict String String
  pub expected_types : Option (Dict String String)

module _ {P : Type 0} where
  -- `load`, which `make_source_loader` returns
  unfoldable pub load :
      (String → Option P)
      → (String → Option RawReportMeta)
      → Dict String String
      → Option (Dict String String)
      → String
      → Result LoadError P
  unfolding expected_type
  load get_payload get_meta source_refs expected_types name = do
    report_ref ← found no_ref (lookup name source_refs)
    meta ← found unknown_ref (get_meta report_ref)
    reject_if (is_wrong (expected_type expected_types name) meta) wrong_type
    found no_payload (get_payload meta.storage_uri)

  -- The payload that belongs to a source.
  pub record IsOfSource (r : Reports P) (name : String) (payload : P) : Type 0 where
    pub report_ref : String
    pub meta : RawReportMeta
    pub bound : lookup name r.source_refs ≡ some report_ref
    pub known : IsVisible r.metas r.stored_meta report_ref meta
    pub typed : IsTyped r.expected_types name meta
    pub stored : IsVisible r.payloads r.stored_payload meta.storage_uri payload

  -- `load` over the overlays of the request, as in api/direct_compute.py.
  abbrev pub load_overlaid : Reports P → String → Result LoadError P
  load_overlaid r name =
      load (overlaid r.payloads r.stored_payload) (overlaid r.metas r.stored_meta) r.source_refs
        r.expected_types name

  module _ (r : Reports P) (name : String) (payload : P) where
    load-IsOfSource : load_overlaid r name ≡ ok payload → IsOfSource r name payload
    unfolding load
    load-IsOfSource done =
        let (report_ref, bound, after) =
          >>=-eq-ok (found no_ref (lookup name r.source_refs)) _ done in
        let (meta, known, later) =
          >>=-eq-ok (found unknown_ref (overlaid r.metas r.stored_meta report_ref)) _ after in
        let (typed, stored) =
          >>-eq-ok (reject_if (is_wrong (expected_type r.expected_types name) meta) wrong_type) _
            later in
        record {
          report_ref = report_ref;
          meta = meta;
          bound = found-eq-ok no_ref _ _ bound;
          known =
              (overlaid-IsVisible r.metas r.stored_meta report_ref meta).0
                (found-eq-ok unknown_ref _ _ known);
          typed = (is_wrong-IsTyped r.expected_types name meta).0 (reject_if-eq-ok _ _ typed);
          stored =
              (overlaid-IsVisible r.payloads r.stored_payload meta.storage_uri payload).0
                (found-eq-ok no_payload _ _ stored);
        }

    IsOfSource-load : IsOfSource r name payload → load_overlaid r name ≡ ok payload
    unfolding load
    IsOfSource-load b =
        rw
          (
            b.bound,
            (overlaid-IsVisible r.metas r.stored_meta b.report_ref b.meta).1 b.known,
            (is_wrong-IsTyped r.expected_types name b.meta).1 b.typed,
            (overlaid-IsVisible r.payloads r.stored_payload b.meta.storage_uri payload).1 b.stored,
          )
          refl

    -- Over the reports that a request brings along and the stored ones, a source loads a payload
    -- exactly if the request binds the source to a reference, the report of this reference, which is
    -- the request's own where it brings one and the stored one otherwise, is of the type that the
    -- registry gives the source, where it gives one, and the payload is what stands at the report's
    -- storage, again the request's own before the stored one.
    pub load_iff : (load_overlaid r name ≡ ok payload) ↔ IsOfSource r name payload
    load_iff = (load-IsOfSource, IsOfSource-load)
