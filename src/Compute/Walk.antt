-- ===== src/Compute/Walk.antt =====
-- fs_core/compute/engine.py: the loops of `_resolve` over the sources and the edges of a feature.
use mathlib.Core.Path.{subst}
use mathlib.Core.Option.{some-injective}
use clearfeature.Prelude.{
  String, ◌≡◌, refl, sym, ◌∙◌, ◌⊎◌, inl, inr, Bool, true, false, ◌&&◌, some, List, [], ◌∷◌, In, All,
  In-insert, In-insert_ne, In-insert_inv, arith, Dict, string_key, lookup, insert, str_eq-cases,
  Result, ok, >>=-eq-ok, Bool-cases, Option-cases,
}
use clearfeature.Registry.{FeatureDependency}
use clearfeature.Compute.Context.{
  ComputeError, source_failed, outside, FeatureComputation, Context, get_source, is_skipped,
  mark_skipped,
}
use clearfeature.Compute.Derive.{edge_is_stale}
use clearfeature.Compute.Resolve.{Env, Resolved, Edges, stop, go_on, load_sources, resolve_edges}
use clearfeature.Compute.Traced.{Extends, Skips, Keeps, Used, IsSame, IsNamed, IsTracedFrom, Sound}

module _ {V P : Type 0} where
  get_source-IsSame :
      (loader : String → Result String P) (n : String) (p : P) (c c' : Context V P)
      → get_source loader n c ≡ ok (p, c')
      → IsSame c c'
  unfolding get_source
  get_source-IsSame loader n p c c' h = elim (Option-cases (lookup n c.sources)) [
    | inr (q, held) ↦
        let done : ◌≡◌ {A = Result ComputeError (P × Context V P)} (ok (q, c)) (ok (p, c')) =
          rw (held, get_source) at h in
        let same : c ≡ c' = cc in
        subst (λ (q : Context V P). IsSame c q) same (record { features = refl; statuses = refl })
    | inl absent ↦
        let (q, first, last) =
          >>=-eq-ok (outside source_failed (loader n)) _ (rw (absent, get_source) at h) in
        let done : ◌≡◌ {A = Result ComputeError (P × Context V P)}
            (ok (q, record c { sources = insert n q c.sources })) (ok (p, c')) =
          last in
        let same : record c { sources = insert n q c.sources } ≡ c' = cc in
        subst (λ (q : Context V P). IsSame c q) same (record { features = refl; statuses = refl })
  ]

  pub load_sources-IsSame :
      (loader : String → Result String P) (names : List String) (acc got : Dict String P)
      (c c' : Context V P)
      → load_sources loader names acc c ≡ ok (got, c')
      → IsSame c c'
  unfolding load_sources
  load_sources-IsSame loader [] acc got c c' h =
      let same : c ≡ c' = cc in
      subst (λ (q : Context V P). IsSame c q) same (record { features = refl; statuses = refl })
  load_sources-IsSame loader (n ∷ names) acc got c c' h =
      let ((p, c₁), first, later) = >>=-eq-ok (get_source loader n c) _ h in
      let e = get_source-IsSame loader n p c c₁ first in
      let e' = load_sources-IsSame loader names (insert n p acc) got c₁ c' later in
      record { features = e.features ∙ e'.features; statuses = e.statuses ∙ e'.statuses }

  pub record After (env : Env V P) (base : Context V P) (visiting : List String)
      (c c' : Context V P) : Type 0 where
    pub traced : IsTracedFrom env base c'
    pub extends : Extends c c'
    pub skips : Skips c c'
    pub keeps : Keeps visiting c c'

  -- The collected computations are those of the context.
  abbrev pub Held : Context V P → Dict String (FeatureComputation V) → Type 0
  Held c acc =
      (n : String) (k : FeatureComputation V) → In (n, k) acc → lookup n c.features ≡ some k

  abbrev pub Walk :
      Env V P
      → Context V P
      → List String
      → String
      → Context V P
      → Dict String (FeatureComputation V)
      → List FeatureDependency
      → Edges V P
      → Type 0
  Walk env base visiting name c acc ds (stop c') =
      (before : Context V P) × (mark_skipped name before ≡ c') × After env base visiting c before
  Walk env base visiting name c acc ds (go_on acc' degraded c') =
      After env base visiting c c'
      × Held c' acc'
      × ((n : String) (k : FeatureComputation V) → In (n, k) acc → In (n, k) acc')
      × ((n : String) (k : FeatureComputation V) → In (n, k) acc' → In (n, k) acc ⊎ IsNamed ds n)
      × All
          (λ d.
            ((k : FeatureComputation V) × Used env.calc_ts c' d k × In (d.feature, k) acc')
            ⊎ ((d.required ≡ false) × (is_skipped d.feature c' ≡ true)))
          ds

  Held-insert :
      (n : String) (k : FeatureComputation V) (c : Context V P)
      (acc : Dict String (FeatureComputation V))
      → Held c acc
      → lookup n c.features ≡ some k
      → Held c (insert n k acc)
  Held-insert n k c acc h e m j i = elim (In-insert_inv n k acc m j i) [
    | inl (p, q) ↦ rw (p, q) e
    | inr old ↦ h m j old
  ]

  -- A second computation under a name is the same one.
  In-insert-Held :
      (n : String) (k : FeatureComputation V) (c : Context V P)
      (acc : Dict String (FeatureComputation V))
      → Held c acc
      → lookup n c.features ≡ some k
      → (m : String) (j : FeatureComputation V) → In (m, j) acc
      → In (m, j) (insert n k acc)
  In-insert-Held n k c acc h e m j i = elim (str_eq-cases n m) [
    | inl (_, p) ↦
        let same : j ≡ k = some-injective _ _ (sym (h m j i) ∙ rw p at e) in
        rw (← p, same) (In-insert n k acc)
    | inr (_, ne) ↦ In-insert_ne n k acc m j ne i
  ]

  After-trans :
      (env : Env V P) (base : Context V P) (visiting : List String) (c c₁ c₂ : Context V P)
      → Extends c c₁
      → Skips c c₁
      → Keeps visiting c c₁
      → After env base visiting c₁ c₂
      → After env base visiting c c₂
  After-trans env base visiting c c₁ c₂ x y k a = record {
    traced = a.traced;
    extends = λ n j h. a.extends n j (x n j h);
    skips = λ n h. a.skips n (y n h);
    keeps = λ v i. ((a.keeps v i).0 ∙ (k v i).0, (a.keeps v i).1 ∙ (k v i).1);
  }

  abbrev pub Edge :
      Env V P → Context V P → Dict String (FeatureComputation V) → FeatureDependency → Type 0
  Edge env c acc d =
      ((k : FeatureComputation V) × Used env.calc_ts c d k × In (d.feature, k) acc)
      ⊎ ((d.required ≡ false) × (is_skipped d.feature c ≡ true))

  Walk-cons :
      (env : Env V P) (base : Context V P) (visiting : List String) (name : String)
      (c c₁ : Context V P) (acc acc₁ : Dict String (FeatureComputation V)) (d : FeatureDependency)
      (ds : List FeatureDependency) (out : Edges V P)
      → Extends c c₁
      → Skips c c₁
      → Keeps visiting c c₁
      → ((n : String) (k : FeatureComputation V) → In (n, k) acc → In (n, k) acc₁)
      → ((n : String) (k : FeatureComputation V) → In (n, k) acc₁ → In (n, k) acc ⊎ (d.feature ≡ n))
      → Edge env c₁ acc₁ d
      → Walk env base visiting name c₁ acc₁ ds out
      → Walk env base visiting name c acc (d ∷ ds) out
  Walk-cons env base visiting name c c₁ acc acc₁ d ds (stop c') x y k wider narrower edge
        (before, e, a) =
      (before, e, After-trans env base visiting c c₁ before x y k a)
  Walk-cons env base visiting name c c₁ acc acc₁ d ds (go_on acc' degraded c') x y k wider narrower
        edge (a, held, w, back, edges) =
      (
        After-trans env base visiting c c₁ c' x y k a,
        held,
        λ n j i. w n j (wider n j i),
        λ n j i. elim (back n j i) [
          | inl there ↦ elim (narrower n j there) [
            | inl old ↦ inl old
            | inr e ↦ inr (d, inl refl, e)
          ]
          | inr (b, listed, e) ↦ inr (b, inr listed, e)
        ],
        (
          elim edge [
            | inl (j, (e, fresh), i) ↦ inl (j, (a.extends d.feature j e, fresh), w d.feature j i)
            | inr (optional, skipped) ↦ inr (optional, a.skips d.feature skipped)
          ],
          edges,
        ),
      )

  module _ (env : Env V P) (base : Context V P) (visiting : List String) (name : String)
      (go : String → Context V P → Resolved V P) (sound : Sound env base visiting go) where
    pub resolve_edges-Walk :
        (ds : List FeatureDependency) (acc : Dict String (FeatureComputation V)) (degraded : Bool)
        (c : Context V P) (out : Edges V P)
        → IsTracedFrom env base c
        → Held c acc
        → resolve_edges go env.calc_ts name ds acc degraded c ≡ ok out
        → Walk env base visiting name c acc ds out
    unfolding resolve_edges mark_skipped
    resolve_edges-Walk [] acc degraded c out t held h =
        let made : go_on acc degraded c ≡ out = cc in
        subst (Walk env base visiting name c acc []) made (
          record {
            traced = t;
            extends = λ n k e. e;
            skips = λ n e. e;
            keeps = λ v i. (refl, refl);
          },
          held,
          λ n k i. i,
          λ n k i. inl i,
          tt,
        )
    resolve_edges-Walk (d ∷ ds) acc degraded c out t held h =
        let ((found, c₁), first, later) = >>=-eq-ok (go d.feature c) _ h in
        let s = sound d.feature c found c₁ t first in
        elim (Option-cases found) [
          | inl none_found ↦ elim (Bool-cases d.required) [
            | inl required ↦
                let last : ◌≡◌ {A = Result ComputeError (Edges V P)}
                    (ok (stop (mark_skipped name c₁))) (ok out) =
                  rw (none_found, required) at later in
                let made : stop (mark_skipped name c₁) ≡ out = cc in
                subst (Walk env base visiting name c acc (d ∷ ds)) made (
                  c₁,
                  refl,
                  record {
                    traced = s.traced;
                    extends = s.extends;
                    skips = s.skips;
                    keeps = s.keeps;
                  },
                )
            | inr optional ↦
                Walk-cons env base visiting name c c₁ acc acc d ds out s.extends s.skips s.keeps
                  (λ n k i. i) (λ n k i. inl i) (inr (optional, s.passed none_found))
                  (resolve_edges-Walk ds acc true c₁ out s.traced
                    (λ n k i. s.extends n k (held n k i)) (rw (none_found, optional) at later))
          ]
          | inr (k, some_found) ↦
              let at_name = s.stored k some_found in
              let held₁ : Held c₁ acc = λ n j i. s.extends n j (held n j i) in
              elim (Bool-cases (edge_is_stale d k.data_ts env.calc_ts && d.required)) [
                | inl stale ↦
                    let last : ◌≡◌ {A = Result ComputeError (Edges V P)}
                        (ok (stop (mark_skipped name c₁))) (ok out) =
                      rw (some_found, stale) at later in
                    let made : stop (mark_skipped name c₁) ≡ out = cc in
                    subst (Walk env base visiting name c acc (d ∷ ds)) made (
                      c₁,
                      refl,
                      record {
                        traced = s.traced;
                        extends = s.extends;
                        skips = s.skips;
                        keeps = s.keeps;
                      },
                    )
                | inr fine ↦
                    Walk-cons env base visiting name c c₁ acc (insert d.feature k acc) d ds out
                      s.extends s.skips s.keeps (In-insert-Held d.feature k c₁ acc held₁ at_name)
                      (λ n j i. elim (In-insert_inv d.feature k acc n j i) [
                        | inl (p, _) ↦ inr (sym p)
                        | inr old ↦ inl old
                      ])
                      (inl (
                        k,
                        (at_name, λ required. ground (arith, fine, required)),
                        In-insert d.feature k acc,
                      ))
                      (resolve_edges-Walk ds (insert d.feature k acc) _ c₁ out s.traced
                        (Held-insert d.feature k c₁ acc held₁ at_name)
                        (rw (some_found, fine) at later))
              ]
        ]
