-- ===== src/Propagation/Indexed.antt =====
-- What the index of reactive edges of fs_core/propagation.py holds.
use clearfeature.Prelude.{
  String, ◌≡◌, ◌↔◌, refl, sym, ◌∙◌, ap, ◌⊎◌, inl, inr, true, List, [], ◌∷◌, ◌++◌, In, In-append,
  In-append_left, In-append_right, str_eq-cases, Bool-cases, string_key, lookup, lookup-insert_self,
  lookup-insert_ne,
}
use mathlib.Core.Path.{subst}
use mathlib.Core.Bool.{true≢false}
use clearfeature.Registry.{FeatureDependency, FeatureDef}
use clearfeature.Propagation.Wave.{
  is_reactive, Edge, Index, or_empty, add_edge, index_deps, index_features,
}

-- The edges under `x`.
abbrev pub edges_of : String → Index → List Edge
edges_of x index = or_empty (lookup x index)

add_edge-In :
    (x input : String) (e edge : Edge) (index : Index)
    → In e (edges_of x (add_edge input edge index))
      ↔ (((x ≡ input) × (e ≡ edge)) ⊎ In e (edges_of x index))
unfolding add_edge
add_edge-In x input e edge index = elim (str_eq-cases input x) [
  | inl (_, same) ↦ (
    λ i.
        elim (In-append e (edges_of input index) (edge ∷ [])
          (rw (← same, lookup-insert_self input (edges_of input index ++ edge ∷ []) index) at i)) [
            | inl old ↦ inr (rw (← same) old)
            | inr (inl new) ↦ inl (sym same, new)
            | inr (inr i') ↦ elim i' [ ]
          ],
    λ s.
        rw (← same, lookup-insert_self input (edges_of input index ++ edge ∷ []) index)
          (elim s [
            | inl (_, new) ↦ In-append_right e (edges_of input index) (edge ∷ []) (inl new)
            | inr old ↦ In-append_left e (edges_of input index) (edge ∷ []) (rw same old)
          ]),
  )
  | inr (_, other) ↦ (
    λ i. inr (rw (lookup-insert_ne input x (edges_of input index ++ edge ∷ []) index other) at i),
    λ s.
        rw (lookup-insert_ne input x (edges_of input index ++ edge ∷ []) index other)
          (elim s [ inl (same, _) ↦ absurd (other (sym same)) | inr old ↦ old ]),
  )
]

-- A reactive edge from `x` to the feature `name`.
pub record IsEdge (x name : String) (deps : List FeatureDependency) (e : Edge) : Type 0 where
  pub listed : In e.1 deps
  pub reactive_edge : is_reactive e.1.propagation ≡ true
  pub from_input : e.1.feature ≡ x
  pub named : e.0 ≡ name

IsEdge-there :
    {x name : String} {d : FeatureDependency} {deps : List FeatureDependency} {e : Edge}
    → IsEdge x name deps e
    → IsEdge x name (d ∷ deps) e
IsEdge-there k = record {
  listed = inr k.listed;
  reactive_edge = k.reactive_edge;
  from_input = k.from_input;
  named = k.named;
}

pair_path :
    (e : Edge) (name : String) (d : FeatureDependency) → e.0 ≡ name → e.1 ≡ d → e ≡ (name, d)
pair_path e name d first second = rw (← first, ← second) refl

index_deps-In :
    (x name : String) (e : Edge) (deps : List FeatureDependency) (index : Index)
    → In e (edges_of x (index_deps name deps index))
      ↔ (IsEdge x name deps e ⊎ In e (edges_of x index))
unfolding index_deps
index_deps-In x name e [] index =
    (λ i. inr i, λ s. elim s [ inl k ↦ elim k.listed [ ] | inr i ↦ i ])
index_deps-In x name e (d ∷ deps) index = elim (Bool-cases (is_reactive d.propagation)) [
  | inl on ↦
      let (only, if_so) = index_deps-In x name e deps (add_edge d.feature (name, d) index) in
      let (came, goes) = add_edge-In x d.feature e (name, d) index in
      rw on (
        λ i. elim (only i) [
          | inl k ↦ inl (IsEdge-there k)
          | inr j ↦ elim (came j) [
            | inl (input, same) ↦ inl (record {
              listed = inl (ap (λ (p : Edge). p.1) same);
              reactive_edge = ap (λ (p : Edge). is_reactive p.1.propagation) same ∙ on;
              from_input = ap (λ (p : Edge). p.1.feature) same ∙ sym input;
              named = ap (λ (p : Edge). p.0) same;
            })
            | inr old ↦ inr old
          ]
        ],
        λ s. if_so (elim s [
          | inl k ↦ elim k.listed [
            | inl same ↦ inr (
                goes (
                  inl (
                    sym k.from_input ∙ ap (λ (f : FeatureDependency). f.feature) same,
                    pair_path e name d k.named same,
                  )))
            | inr later ↦ inl (record {
              listed = later;
              reactive_edge = k.reactive_edge;
              from_input = k.from_input;
              named = k.named;
            })
          ]
          | inr old ↦ inr (goes (inr old))
        ]),
      )
  | inr off ↦
      let (only, if_so) = index_deps-In x name e deps index in
      rw off (
        λ i. elim (only i) [ inl k ↦ inl (IsEdge-there k) | inr j ↦ inr j ],
        λ s. if_so (elim s [
          | inl k ↦ elim k.listed [
            | inl same ↦ absurd (
                true≢false (
                  sym k.reactive_edge
                  ∙ ap (λ (f : FeatureDependency). is_reactive f.propagation) same
                  ∙ off))
            | inr later ↦ inl (record {
              listed = later;
              reactive_edge = k.reactive_edge;
              from_input = k.from_input;
              named = k.named;
            })
          ]
          | inr old ↦ inr old
        ]),
      )
]

-- The same over all features of a view.
pub record IsViewEdge (x : String) (fs : List FeatureDef) (e : Edge) : Type 0 where
  pub feature : FeatureDef
  pub in_view : In feature fs
  pub edge : IsEdge x feature.name feature.deps e

pub index_features-In :
    (x : String) (e : Edge) (fs : List FeatureDef) (index : Index)
    → In e (edges_of x (index_features fs index)) ↔ (IsViewEdge x fs e ⊎ In e (edges_of x index))
unfolding index_features
index_features-In x e [] index =
    (λ i. inr i, λ s. elim s [ inl k ↦ elim k.in_view [ ] | inr i ↦ i ])
index_features-In x e (f ∷ fs) index =
    let (only, if_so) = index_features-In x e fs (index_deps f.name f.deps index) in
    let (came, goes) = index_deps-In x f.name e f.deps index in
    (
      λ i. elim (only i) [
        | inl k ↦ inl (record { feature = k.feature; in_view = inr k.in_view; edge = k.edge })
        | inr j ↦ elim (came j) [
          | inl k ↦ inl (record { feature = f; in_view = inl refl; edge = k })
          | inr old ↦ inr old
        ]
      ],
      λ s. if_so (elim s [
        | inl k ↦ elim k.in_view [
          | inl same ↦
              inr (goes (inl (subst (λ (g : FeatureDef). IsEdge x g.name g.deps e) same k.edge)))
          | inr later ↦ inl (record { feature = k.feature; in_view = later; edge = k.edge })
        ]
        | inr old ↦ inr (goes (inr old))
      ]),
    )
