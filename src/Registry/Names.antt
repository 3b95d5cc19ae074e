-- ===== src/Registry/Names.antt =====
-- fs_core/registry/validator.py: unique names, and the dictionaries of features by name.
use clearfeature.Prelude.{
  length, suc, String, ◌≡◌, refl, sym, ◌∙◌, ap, ◌↔◌, ◌⊎◌, inl, inr, some, List, [], ◌∷◌, map, In,
  IsUnique, contains, not-In, Dict, string_key, lookup, insert, lookup-insert_self,
  lookup-insert_ne, str_eq-cases, ok, >>-eq-ok, reject_if, reject_if-eq-ok,
}
use clearfeature.Registry.{FeatureDef}
use clearfeature.Registry.Validator.{
  duplicate_name, unique_from, unique_names, dict_from, features_by_name,
}

abbrev pub names : List FeatureDef → List String
names fs = map (λ f. f.name) fs

pub length-names : (fs : List FeatureDef) → length (names fs) ≡ length fs
length-names [] = refl
length-names (f ∷ fs) = ap suc (length-names fs)

pub In-names : (f : FeatureDef) (fs : List FeatureDef) → In f fs → In f.name (names fs)
In-names f [] i = elim i [ ]
In-names f (g ∷ fs) (inl e) = inl (ap (λ (h : FeatureDef). h.name) e)
In-names f (g ∷ fs) (inr i) = inr (In-names f fs i)

lookup-dict_from_ne :
    (fs : List FeatureDef) (d : Dict String FeatureDef) (n : String)
    → ¬ In n (names fs)
    → lookup n (dict_from d fs) ≡ lookup n d
unfolding dict_from
lookup-dict_from_ne [] d n h = refl
lookup-dict_from_ne (f ∷ fs) d n h =
    lookup-dict_from_ne fs (insert f.name f d) n (λ i. h (inr i))
    ∙ lookup-insert_ne f.name n f d (λ e. h (inl (sym e)))

lookup-dict_from :
    (fs : List FeatureDef) (d : Dict String FeatureDef) (f : FeatureDef)
    → IsUnique (names fs)
    → In f fs
    → lookup f.name (dict_from d fs) ≡ some f
unfolding dict_from
lookup-dict_from [] d f u i = elim i [ ]
lookup-dict_from (g ∷ fs) d f u (inl e) =
    rw e (lookup-dict_from_ne fs (insert g.name g d) g.name u.0 ∙ lookup-insert_self g.name g d)
lookup-dict_from (g ∷ fs) d f u (inr i) = lookup-dict_from fs (insert g.name g d) f u.1 i

-- With unique names the dictionary finds each feature by its name.
pub lookup-features_by_name :
    (fs : List FeatureDef) (f : FeatureDef)
    → IsUnique (names fs)
    → In f fs
    → lookup f.name (features_by_name fs) ≡ some f
unfolding features_by_name
lookup-features_by_name fs f u i = lookup-dict_from fs [] f u i

-- Only features of the list are found, under their own names.
pub lookup-dict_from_inv :
    (fs : List FeatureDef) (d : Dict String FeatureDef) (n : String) (f : FeatureDef)
    → lookup n (dict_from d fs) ≡ some f
    → (In f fs × (f.name ≡ n)) ⊎ (lookup n d ≡ some f)
unfolding dict_from
lookup-dict_from_inv [] d n f h = inr h
lookup-dict_from_inv (g ∷ fs) d n f h = elim (lookup-dict_from_inv fs (insert g.name g d) n f h) [
  | inl (i, e) ↦ inl (inr i, e)
  | inr p ↦ elim (str_eq-cases g.name n) [
    | inl (_, e) ↦
        let same : g ≡ f =
          cc (
            lookup-insert_self g.name g d,
            p,
            ap (λ (n : String). lookup n (insert g.name g d)) e,
          ) in
        inl (inl (sym same), ap (λ (h : FeatureDef). h.name) (sym same) ∙ e)
    | inr (_, ne) ↦ inr (sym (lookup-insert_ne g.name n g d ne) ∙ p)
  ]
]

pub lookup-features_by_name_inv :
    (fs : List FeatureDef) (n : String) (f : FeatureDef)
    → lookup n (features_by_name fs) ≡ some f
    → In f fs × (f.name ≡ n)
unfolding features_by_name lookup
lookup-features_by_name_inv fs n f h = elim (lookup-dict_from_inv fs [] n f h) [
  | inl found ↦ found
  | inr p ↦ cc
]

unique_from-IsUnique :
    (seen ns got : List String)
    → unique_from seen ns ≡ ok got
    → IsUnique ns
      × ((n : String) → In n ns → ¬ In n seen)
      × ((n : String) → In n got → In n seen ⊎ In n ns)
      × ((n : String) → In n seen ⊎ In n ns → In n got)
unfolding unique_from
unique_from-IsUnique seen [] got h =
    let e : seen ≡ got = cc in
    (
      tt,
      λ n i. elim i [ ],
      λ n i. inl (rw e i),
      λ n i. elim i [ inl j ↦ rw e at j | inr j ↦ elim j [ ] ],
    )
unique_from-IsUnique seen (n ∷ ns) got h =
    let (fresh, later) = >>-eq-ok (reject_if (contains seen n) (duplicate_name n)) _ h in
    let (u, away, from, to) = unique_from-IsUnique (n ∷ seen) ns got later in
    let new = not-In seen n (reject_if-eq-ok _ (duplicate_name n) fresh) in
    (
      (λ i. away n i (inl refl), u),
      λ k i. elim i [ inl e ↦ rw e new | inr j ↦ λ s. away k j (inr s) ],
      λ k i. elim (from k i) [
        | inl (inl e) ↦ inr (inl e)
        | inl (inr s) ↦ inl s
        | inr j ↦ inr (inr j)
      ],
      λ k i.
          to k (elim i [ inl s ↦ inl (inr s) | inr (inl e) ↦ inl (inl e) | inr (inr j) ↦ inr j ]),
    )

-- The check passes only on names without a repetition, and returns them.
pub unique_names-IsUnique :
    (ns got : List String)
    → unique_names ns ≡ ok got
    → IsUnique ns × ((n : String) → In n got ↔ In n ns)
unfolding unique_names
unique_names-IsUnique ns got h =
    let (u, _, from, to) = unique_from-IsUnique [] ns got h in
    (u, λ n. (λ i. elim (from n i) [ inl j ↦ elim j [ ] | inr j ↦ j ], λ i. to n (inr i)))
