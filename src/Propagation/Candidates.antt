-- ===== src/Propagation/Candidates.antt =====
-- The candidates that `plan_recompute_wave` of fs_core/propagation.py makes of the edges it finds.
use clearfeature.Prelude.{
  String, ◌≡◌, ◌↔◌, refl, sym, ◌∙◌, ap, ◌⊎◌, inl, inr, some, List, [], ◌∷◌, In, ◌==◌, ==_iff,
  Bool-cases, Dict, string_key, lookup, ok, some-injective,
}
use mathlib.Core.Bool.{true≢false}
use clearfeature.Registry.{FeatureDef}
use clearfeature.Events.Updated.{FeatureUpdated}
use clearfeature.Propagation.{RecomputeCandidate}
use clearfeature.Propagation.Wave.{
  Edge, or_version, candidate_of, candidates_of, comes_before, insert_candidate, sort_candidates,
}

insert_candidate-In :
    (c b : RecomputeCandidate) (bs : List RecomputeCandidate)
    → In c (insert_candidate b bs) ↔ ((c ≡ b) ⊎ In c bs)
unfolding insert_candidate
insert_candidate-In c b [] = (λ i. i, λ i. i)
insert_candidate-In c b (a ∷ bs) = elim (Bool-cases (comes_before a b)) [
  | inl first ↦
      let (only, if_so) = insert_candidate-In c b bs in
      rw first (
        λ i. elim i [
          | inl e ↦ inr (inl e)
          | inr j ↦ elim (only j) [ inl e ↦ inl e | inr k ↦ inr (inr k) ]
        ],
        λ s. elim s [
          | inl e ↦ inr (if_so (inl e))
          | inr (inl e) ↦ inl e
          | inr (inr k) ↦ inr (if_so (inr k))
        ],
      )
  | inr last ↦ rw last (λ i. i, λ i. i)
]

pub sort_candidates-In :
    (c : RecomputeCandidate) (cs : List RecomputeCandidate) → In c (sort_candidates cs) ↔ In c cs
unfolding sort_candidates
sort_candidates-In c [] = (λ i. i, λ i. i)
sort_candidates-In c (b ∷ bs) =
    let (only, if_so) = sort_candidates-In c bs in
    let (came, goes) = insert_candidate-In c b (sort_candidates bs) in
    (
      λ i. elim (came i) [ inl e ↦ inl e | inr j ↦ inr (only j) ],
      λ i. goes (elim i [ inl e ↦ inl e | inr j ↦ inr (if_so j) ]),
    )

module _ (event : FeatureUpdated) where
  -- The candidate of an edge whose pin allows the version of the update.
  pub record IsCandidate (by_name : Dict String FeatureDef) (edges : List Edge)
      (c : RecomputeCandidate) : Type 0 where
    pub edge : Edge
    pub dependent : FeatureDef
    pub listed : In edge edges
    pub declared : lookup edge.0 by_name ≡ some dependent
    pub pinned : or_version edge.1.version event.feature_version ≡ event.feature_version
    pub made : c ≡ candidate_of event edge.0 dependent

  IsCandidate-there :
      {by_name : Dict String FeatureDef} {edge : Edge} {edges : List Edge} {c : RecomputeCandidate}
      → IsCandidate by_name edges c
      → IsCandidate by_name (edge ∷ edges) c
  IsCandidate-there k = record {
    edge = k.edge;
    dependent = k.dependent;
    listed = inr k.listed;
    declared = k.declared;
    pinned = k.pinned;
    made = k.made;
  }

  -- The candidates that the loop makes of the rest of the edges.
  pub record IsMade (by_name : Dict String FeatureDef) (edges : List Edge) : Type 0 where
    pub candidates : List RecomputeCandidate
    pub returned : candidates_of event by_name edges ≡ ok candidates
    pub due : (c : RecomputeCandidate) → In c candidates ↔ IsCandidate by_name edges c

  pub candidates_of-IsMade :
      (by_name : Dict String FeatureDef) (edges : List Edge)
      → ((e : Edge) → In e edges → (f : FeatureDef) × (lookup e.0 by_name ≡ some f))
      → IsMade by_name edges
  unfolding candidates_of
  candidates_of-IsMade by_name [] all_known = record {
    candidates = [];
    returned = refl;
    due = λ c. (λ i. elim i [ ], λ k. elim k.listed [ ]);
  }
  candidates_of-IsMade by_name ((name, d) ∷ edges) all_known =
      let (f, there) = all_known (name, d) (inl refl) in
      let rest = candidates_of-IsMade by_name edges (λ e i. all_known e (inr i)) in
      elim (Bool-cases (or_version d.version event.feature_version == event.feature_version)) [
        | inl fits ↦ record {
          candidates = candidate_of event name f ∷ rest.candidates;
          returned = rw (there, rest.returned, fits) refl;
          due = λ c. (
            λ i. elim i [
              | inl e ↦ record {
                edge = (name, d);
                dependent = f;
                listed = inl refl;
                declared = there;
                pinned = (==_iff _ _).0 fits;
                made = e;
              }
              | inr j ↦ IsCandidate-there ((rest.due c).0 j)
            ],
            λ k. elim k.listed [
              | inl same ↦
                  let one : k.dependent ≡ f =
                    some-injective
                      (sym k.declared ∙ ap (λ (e : Edge). lookup e.0 by_name) same ∙ there) in
                  inl (
                    k.made
                    ∙ ap (λ (e : Edge). candidate_of event e.0 k.dependent) same
                    ∙ ap (λ (g : FeatureDef). candidate_of event name g) one)
              | inr later ↦ inr (
                  (rest.due c).1 (record {
                    edge = k.edge;
                    dependent = k.dependent;
                    listed = later;
                    declared = k.declared;
                    pinned = k.pinned;
                    made = k.made;
                  }))
            ],
          );
        }
        | inr differs ↦ record {
          candidates = rest.candidates;
          returned = rw (there, rest.returned, differs) refl;
          due = λ c. (
            λ i. IsCandidate-there ((rest.due c).0 i),
            λ k. elim k.listed [
              | inl same ↦ absurd (
                  true≢false (
                    sym ((==_iff _ _).1 k.pinned)
                    ∙ ap
                        (λ (e : Edge).
                          or_version e.1.version event.feature_version == event.feature_version)
                        same
                    ∙ differs))
              | inr later ↦ (rest.due c).1 (record {
                edge = k.edge;
                dependent = k.dependent;
                listed = later;
                declared = k.declared;
                pinned = k.pinned;
                made = k.made;
              })
            ],
          );
        }
      ]
