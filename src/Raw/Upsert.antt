-- ===== src/Raw/Upsert.antt =====
-- What `upsert` of fs_core/raw/meta_repository.py does with a report that it knows.
use mathlib.Core.Bool.{true≢false}
use clearfeature.Prelude.{
  ℕ, ◌≡◌, ◌↔◌, refl, sym, ◌∙◌, Bool, true, false, Option, none, some, arith, ==_iff, eq_iff, inl,
  inr, Bool-cases, Option-cases, lookup, lookup-insert_self, string_key, ok, err, err≢ok,
  ok-injective_pair, none≢some, some-injective,
}
use clearfeature.Raw.Meta.{
  RawReportMeta, same_parts_iff, raw_meta_conflicts, is_availability_correction, same_time,
  CorrectionContext, MetaRepository, conflict, add, with_availability, correct, upsert_known,
  upsert_found, upsert,
}

-- The fields that a report reference fixes for good.
pub record IsSameReport (a b : RawReportMeta) : Type 0 where
  pub same_report_type : a.report_type ≡ b.report_type
  pub same_entity_type : a.entity_type ≡ b.entity_type
  pub same_entity : a.entity_key.parts ≡ b.entity_key.parts
  pub same_report_ts : a.report_ts ≡ b.report_ts
  pub same_size : a.payload_size_bytes ≡ b.payload_size_bytes
  pub same_hash : a.content_hash ≡ b.content_hash
  pub same_uri : a.storage_uri ≡ b.storage_uri
  pub same_format : a.format ≡ b.format
  pub same_compression : a.compression ≡ b.compression

pub raw_meta_conflicts_iff :
    (a b : RawReportMeta) → (raw_meta_conflicts a b ≡ false) ↔ IsSameReport a b
unfolding raw_meta_conflicts
raw_meta_conflicts_iff a b = ground (
  arith,
  eq_iff a.report_type b.report_type,
  eq_iff a.entity_type b.entity_type,
  same_parts_iff a.entity_key.parts b.entity_key.parts,
  eq_iff a.content_hash b.content_hash,
  eq_iff a.storage_uri b.storage_uri,
  eq_iff a.format b.format,
  eq_iff a.compression b.compression,
)

differs_unless_same : (a b : RawReportMeta) → ¬ IsSameReport a b → raw_meta_conflicts a b ≡ true
differs_unless_same a b other = elim (Bool-cases (raw_meta_conflicts a b)) [
  | inl h ↦ h
  | inr h ↦ absurd (other ((raw_meta_conflicts_iff a b).0 h))
]

module _ (meta : RawReportMeta) (context : Option CorrectionContext) (now : ℕ)
    (s : MetaRepository) where
  pub upsert-unknown :
      lookup meta.report_ref s.metas ≡ none → upsert meta context now s ≡ ok (add meta s, true)
  unfolding upsert
  upsert-unknown e = rw e refl

  pub upsert-known :
      (existing : RawReportMeta)
      → lookup meta.report_ref s.metas ≡ some existing
      → upsert meta context now s ≡ upsert_known existing meta context now s
  unfolding upsert
  upsert-known existing e = rw e refl

  upsert_known-conflict :
      (existing : RawReportMeta)
      → (upsert_known existing meta context now s ≡ err (conflict meta.report_ref))
        ↔ (raw_meta_conflicts existing meta ≡ true)
  unfolding upsert_known
  upsert_known-conflict existing = elim (Bool-cases (raw_meta_conflicts existing meta)) [
    | inl differs ↦ rw differs (λ h. refl, λ h. refl)
    | inr same ↦ rw same (
      λ h. elim (Bool-cases (is_availability_correction existing meta)) [
        | inl better ↦ absurd (err≢ok (sym (rw better at h)))
        | inr as_was ↦ absurd (err≢ok (sym (rw as_was at h)))
      ],
      λ h. cc,
    )
  ]

  -- A write is refused with a conflict exactly if a report is stored under its reference that
  -- differs from it in the type of the report, the entity, the report time, the size, the hash,
  -- the storage, the format or the compression.
  pub upsert-conflict : (upsert meta context now s ≡ err (conflict meta.report_ref)) ↔ (
      (existing : RawReportMeta) × (lookup meta.report_ref s.metas ≡ some existing)
      × (¬ IsSameReport existing meta))
  upsert-conflict = elim (Option-cases (lookup meta.report_ref s.metas)) [
    | inl away ↦ (
      λ h. absurd (err≢ok (sym h ∙ upsert-unknown away)),
      λ p. (let (existing, there, _) = p in absurd (none≢some (sym away ∙ there))),
    )
    | inr (known, there) ↦
        let (only_if, if_so) = upsert_known-conflict known in
        (
          λ h. (
            known,
            there,
            λ same. true≢false (
                sym (only_if (sym (upsert-known known there) ∙ h))
                ∙ (raw_meta_conflicts_iff known meta).1 same),
          ),
          λ p.
              (let (existing, here, other) = p in
                let same_one : existing ≡ known = some-injective (sym here ∙ there) in
                upsert-known known there
                ∙ if_so (differs_unless_same known meta (rw (← same_one) other))),
        )
  ]

-- The three ways in which `upsert` returns.
pub data IsUpsert (meta : RawReportMeta) (context : Option CorrectionContext) (now : ℕ)
    (s : MetaRepository) : MetaRepository → Bool → Type 0 where
  first : lookup meta.report_ref s.metas ≡ none → IsUpsert meta context now s (add meta s) true
  corrected :
      (existing : RawReportMeta)
      → lookup meta.report_ref s.metas ≡ some existing
      → raw_meta_conflicts existing meta ≡ false
      → IsUpsert meta context now s (correct existing meta context now s) true
  unchanged :
      (existing : RawReportMeta)
      → lookup meta.report_ref s.metas ≡ some existing
      → raw_meta_conflicts existing meta ≡ false
      → is_availability_correction existing meta ≡ false
      → IsUpsert meta context now s s false

upsert_found-IsUpsert :
    (meta : RawReportMeta) (context : Option CorrectionContext) (now : ℕ) (s s' : MetaRepository)
    (b : Bool) (found : Option RawReportMeta)
    → lookup meta.report_ref s.metas ≡ found
    → upsert_found found meta context now s ≡ ok (s', b)
    → IsUpsert meta context now s s' b
unfolding upsert_known
upsert_found-IsUpsert meta context now s s' b none there done =
    let (stored, flag) = ok-injective_pair done in rw (← stored, ← flag) (first there)
upsert_found-IsUpsert meta context now s s' b (some existing) there done =
    elim (Bool-cases (raw_meta_conflicts existing meta)) [
      | inl differs ↦ absurd (err≢ok (rw differs at done))
      | inr same ↦ elim (Bool-cases (is_availability_correction existing meta)) [
        | inl better ↦
            let (stored, flag) = ok-injective_pair (rw (same, better) at done) in
            rw (← stored, ← flag) (corrected existing there same)
        | inr as_was ↦
            let (stored, flag) = ok-injective_pair (rw (same, as_was) at done) in
            rw (← stored, ← flag) (unchanged existing there same as_was)
      ]
    ]

pub upsert-IsUpsert :
    (meta : RawReportMeta) (context : Option CorrectionContext) (now : ℕ) (s s' : MetaRepository)
    (b : Bool)
    → upsert meta context now s ≡ ok (s', b)
    → IsUpsert meta context now s s' b
unfolding upsert
upsert-IsUpsert meta context now s s' b done =
    upsert_found-IsUpsert meta context now s s' b _ refl done

-- A report that is there, and that the call would not correct, leaves the repository as it is.
upsert_settled :
    (meta existing : RawReportMeta) (context : Option CorrectionContext) (now : ℕ)
    (s : MetaRepository)
    → lookup meta.report_ref s.metas ≡ some existing
    → raw_meta_conflicts existing meta ≡ false
    → is_availability_correction existing meta ≡ false
    → upsert meta context now s ≡ ok (s, false)
unfolding upsert upsert_known
upsert_settled meta existing context now s there same as_was = rw (there, same, as_was) refl

same_time_self : (t : Option ℕ) → same_time t t ≡ true
same_time_self none = refl
same_time_self (some n) = (==_iff n n).1 refl

not_corrected :
    (existing meta : RawReportMeta)
    → existing.available_at ≡ meta.available_at
    → is_availability_correction existing meta ≡ false
unfolding is_availability_correction
not_corrected existing meta e = rw (e, same_time_self meta.available_at) (ground arith)

with_availability-conflicts :
    (existing meta : RawReportMeta)
    → raw_meta_conflicts (with_availability existing meta) meta ≡ raw_meta_conflicts existing meta
unfolding raw_meta_conflicts
with_availability-conflicts existing meta = refl

self_same : (meta : RawReportMeta) → raw_meta_conflicts meta meta ≡ false
self_same meta = (raw_meta_conflicts_iff meta meta).1 (record {
  same_report_type = refl;
  same_entity_type = refl;
  same_entity = refl;
  same_report_ts = refl;
  same_size = refl;
  same_hash = refl;
  same_uri = refl;
  same_format = refl;
  same_compression = refl;
})

upsert_again :
    (meta : RawReportMeta) (context later : Option CorrectionContext) (now next : ℕ)
    (s s' : MetaRepository) (b : Bool)
    → IsUpsert meta context now s s' b
    → upsert meta later next s' ≡ ok (s', false)
unfolding add
upsert_again meta context later now next s s' b (first _) =
    upsert_settled meta meta later next (add meta s)
      (lookup-insert_self meta.report_ref meta s.metas) (self_same meta)
      (not_corrected meta meta refl)
upsert_again meta context later now next s s' b (corrected existing there same) =
    upsert_settled meta (with_availability existing meta) later next
      (correct existing meta context now s)
      (lookup-insert_self meta.report_ref (with_availability existing meta) s.metas)
      (with_availability-conflicts existing meta ∙ same)
      (not_corrected (with_availability existing meta) meta refl)
upsert_again meta context later now next s s' b (unchanged existing there same as_was) =
    upsert_settled meta existing later next s there same as_was

-- A write that went through, repeated with any context at any time, changes nothing and says so.
pub upsert-upsert :
    (meta : RawReportMeta) (context later : Option CorrectionContext) (now next : ℕ)
    (s s' : MetaRepository) (b : Bool)
    → upsert meta context now s ≡ ok (s', b)
    → upsert meta later next s' ≡ ok (s', false)
upsert-upsert meta context later now next s s' b done =
    upsert_again meta context later now next s s' b (upsert-IsUpsert meta context now s s' b done)
