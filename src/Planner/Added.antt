-- ===== src/Planner/Added.antt =====
-- fs_core/planner.py: what the loops over the requested names and groups add.
use clearfeature.Prelude.{
  String, ◌≡◌, refl, sym, ap, ◌↔◌, ◌⊎◌, inl, inr, Bool, true, not, some, List, [], ◌∷◌, In,
  In-append, In-append_left, In-append_right, IsUnique, IsUnique-snoc, contains, contains→In,
  not-In, Dict, string_key, lookup, insert, ok, >>=-eq-ok, >>-eq-ok, reject_if-eq-ok, not-false,
  Bool-cases, Option-cases,
}
use clearfeature.Registry.{
  Lifecycle, draft, shadow, live, deprecated, Kind, udf, model_score, model, FeatureDef,
}
use clearfeature.Planner.{
  PlannerError, is_shadow, group_references_unknown, check_lifecycle, check_computable, add,
  add_names, add_groups,
}

-- A name that the compute path may be asked for.
abbrev pub IsComputable : Dict String FeatureDef → Bool → String → Type 0
IsComputable by_name allow_shadow n =
    (f : FeatureDef) × (lookup n by_name ≡ some f)
    × (f.kind ≡ udf)
    × ((f.lifecycle ≡ live) ⊎ ((f.lifecycle ≡ shadow) × (allow_shadow ≡ true)))

check_lifecycle-eq-ok :
    (allow_shadow : Bool) (name : String) (l : Lifecycle)
    → check_lifecycle allow_shadow name l ≡ ok tt
    → (l ≡ live) ⊎ ((l ≡ shadow) × (allow_shadow ≡ true))
unfolding check_lifecycle
check_lifecycle-eq-ok allow_shadow name draft h = cc
check_lifecycle-eq-ok allow_shadow name shadow h =
    inr (refl, not-false allow_shadow (reject_if-eq-ok (not allow_shadow) (is_shadow name) h))
check_lifecycle-eq-ok allow_shadow name live h = inl refl
check_lifecycle-eq-ok allow_shadow name deprecated h = cc

-- The three kinds, with the equation.
Kind-cases : (k : Kind) → (k ≡ udf) ⊎ (k ≡ model_score) ⊎ (k ≡ model)
Kind-cases udf = inl refl
Kind-cases model_score = inr (inl refl)
Kind-cases model = inr (inr refl)

check_computable-eq-ok :
    (allow_shadow : Bool) (f : FeatureDef) (name : String)
    → check_computable allow_shadow f name ≡ ok tt
    → (f.kind ≡ udf) × ((f.lifecycle ≡ live) ⊎ ((f.lifecycle ≡ shadow) × (allow_shadow ≡ true)))
unfolding check_computable
check_computable-eq-ok allow_shadow f name h = elim (Kind-cases f.kind) [
  | inl e ↦ (e, check_lifecycle-eq-ok allow_shadow name f.lifecycle (rw (e, check_computable) at h))
  | inr (inl e) ↦ cc (rw (e, check_computable) at h)
  | inr (inr e) ↦ cc (rw (e, check_computable) at h)
]

In-add :
    (n name : String) (ordered : List String)
    → In n (add name ordered) ↔ (In n ordered ⊎ (n ≡ name))
unfolding add
In-add n name ordered = elim (Bool-cases (contains ordered name)) [
  | inl there ↦
      rw there
        (λ i. inl i, λ h. elim h [ inl i ↦ i | inr e ↦ rw e (contains→In ordered name there) ])
  | inr fresh ↦ rw fresh (
    λ i. elim (In-append n ordered (name ∷ []) i) [
      | inl j ↦ inl j
      | inr (inl e) ↦ inr e
      | inr (inr no_more) ↦ elim no_more [ ]
    ],
    λ h. elim h [
      | inl j ↦ In-append_left n ordered (name ∷ []) j
      | inr e ↦ In-append_right n ordered (name ∷ []) (inl e)
    ],
  )
]

IsUnique-add :
    (name : String) (ordered : List String) → IsUnique ordered → IsUnique (add name ordered)
unfolding add
IsUnique-add name ordered u = elim (Bool-cases (contains ordered name)) [
  | inl there ↦ rw there u
  | inr fresh ↦ rw fresh (IsUnique-snoc ordered name u (not-In ordered name fresh))
]

-- `n` is a member of one of the groups that were asked for.
abbrev pub InGroups : Dict String (List String) → List String → String → Type 0
InGroups groups wanted n =
    (g : String) × In g wanted
    × ((members : List String) × (lookup g groups ≡ some members) × In n members)

module _ (by_name : Dict String FeatureDef) (allow_shadow : Bool) where
  -- `ordered` grew by the names that `New` tells.
  pub record Added (New : String → Type 0) (ordered out : List String) : Type 0 where
    pub unique : IsUnique ordered → IsUnique out
    pub members : (n : String) → In n out ↔ (In n ordered ⊎ New n)
    pub computable : (n : String) → New n → IsComputable by_name allow_shadow n

  pub add_names-Added :
      (missing : String → PlannerError) (names ordered out : List String)
      → add_names by_name allow_shadow missing names ordered ≡ ok out
      → Added (λ n. In n names) ordered out
  unfolding add_names
  add_names-Added missing [] ordered out h =
      let e : ordered ≡ out = cc in
      record {
        unique = λ u. rw e at u;
        members = λ n.
            (λ i. inl (rw (sym e) at i), λ h. elim h [ inl i ↦ rw e at i | inr i ↦ elim i [ ] ]);
        computable = λ n i. elim i [ ];
      }
  add_names-Added missing (name ∷ names) ordered out h = elim (Option-cases (lookup name by_name)) [
    | inl unknown ↦ cc (rw (unknown, add_names) at h)
    | inr (f, known) ↦
        let (checked, later) =
          >>-eq-ok (check_computable allow_shadow f name) _ (rw (known, add_names) at h) in
        let rest = add_names-Added missing names (add name ordered) out later in
        record {
          unique = λ u. rest.unique (IsUnique-add name ordered u);
          members = λ n. (
            λ i. elim ((rest.members n).0 i) [
              | inl j ↦ elim ((In-add n name ordered).0 j) [ inl k ↦ inl k | inr e ↦ inr (inl e) ]
              | inr j ↦ inr (inr j)
            ],
            λ h. elim h [
              | inl j ↦ (rest.members n).1 (inl ((In-add n name ordered).1 (inl j)))
              | inr (inl e) ↦ (rest.members n).1 (inl ((In-add n name ordered).1 (inr e)))
              | inr (inr j) ↦ (rest.members n).1 (inr j)
            ],
          );
          computable = λ n i. elim i [
            | inl e ↦
                let (kind, lifecycle) = check_computable-eq-ok allow_shadow f name checked in
                rw e (f, known, kind, lifecycle)
            | inr j ↦ rest.computable n j
          ];
        }
  ]

  pub add_groups-Added :
      (groups : Dict String (List String)) (wanted : List String)
      (expanded expanded' : Dict String (List String)) (ordered out : List String)
      → add_groups by_name groups allow_shadow wanted expanded ordered ≡ ok (expanded', out)
      → Added (InGroups groups wanted) ordered out
  unfolding add_groups
  add_groups-Added groups [] expanded expanded' ordered out h =
      let e : ordered ≡ out = cc in
      record {
        unique = λ u. rw e at u;
        members = λ n. (
          λ i. inl (rw (sym e) at i),
          λ h. elim h [ inl i ↦ rw e at i | inr (g, i, _) ↦ elim i [ ] ],
        );
        computable = λ n (g, i, _). elim i [ ];
      }
  add_groups-Added groups (g ∷ wanted) expanded expanded' ordered out h =
      elim (Option-cases (lookup g groups)) [
        | inl unknown ↦ cc (rw (unknown, add_groups) at h)
        | inr (members, known) ↦
            let (mid, first, later) =
              >>=-eq-ok (add_names by_name allow_shadow group_references_unknown members ordered) _
                (rw (known, add_groups) at h) in
            let a = add_names-Added group_references_unknown members ordered mid first in
            let b =
              add_groups-Added groups wanted (insert g members expanded) expanded' mid out later in
            record {
              unique = λ u. b.unique (a.unique u);
              members = λ n. (
                λ i. elim ((b.members n).0 i) [
                  | inl j ↦ elim ((a.members n).0 j) [
                    | inl k ↦ inl k
                    | inr k ↦ inr (g, inl refl, (members, known, k))
                  ]
                  | inr (q, j, m) ↦ inr (q, inr j, m)
                ],
                λ h. elim h [
                  | inl j ↦ (b.members n).1 (inl ((a.members n).1 (inl j)))
                  | inr (q, inl e, (m, held, k)) ↦
                      let same : m ≡ members =
                        cc (held, known, ap (λ (x : String). lookup x groups) e) in
                      (b.members n).1 (inl ((a.members n).1 (inr (rw same at k))))
                  | inr (q, inr j, m) ↦ (b.members n).1 (inr (q, j, m))
                ],
              );
              computable = λ n (q, i, (m, held, k)). elim i [
                | inl e ↦
                    let same : m ≡ members =
                      cc (held, known, ap (λ (x : String). lookup x groups) e) in
                    a.computable n (rw same at k)
                | inr j ↦ b.computable n (q, j, (m, held, k))
              ];
            }
      ]
