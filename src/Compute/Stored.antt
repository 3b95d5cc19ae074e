-- ===== src/Compute/Stored.antt =====
-- fs_core/compute/engine.py: what `cache_feature` and `mark_skipped` do to a traced context.
use mathlib.Core.Path.{subst}
use mathlib.Core.Option.{some-injective}
use clearfeature.Prelude.{
  String, ◌≡◌, ◌≢◌, refl, sym, ap, ◌∙◌, inl, inr, false, none, some, List, [], ◌∷◌, ◌++◌, In,
  In-append_left, In-append_right, string_key, lookup, insert, lookup-insert_self, lookup-insert_ne,
  str_eq-cases,
}
use clearfeature.Registry.{FeatureDef}
use clearfeature.Compute.Context.{
  FeatureComputation, Context, Status, skipped, cache_feature, is_skipped, is_skipped_status,
  mark_skipped,
}
use clearfeature.Compute.Resolve.{Env}
use clearfeature.Compute.Traced.{Extends, Skips, IsOver, IsTracedFrom, IsOver-Extends, Entered}
use clearfeature.Compute.Walk.{After}

module _ {V P : Type 0} where
  -- A new computation is stored under a name that had none.
  Extends-insert :
      (n : String) (k : FeatureComputation V) (c : Context V P)
      → lookup n c.features ≡ none
      → Extends c (cache_feature n k c)
  unfolding cache_feature
  Extends-insert n k c absent m j h = elim (str_eq-cases n m) [
    | inl (_, e) ↦ cc (absent, h, ap (λ (x : String). lookup x c.features) e)
    | inr (_, ne) ↦ lookup-insert_ne n m k c.features ne ∙ h
  ]

  -- What is told of one feature is not told of another.
  is_skipped-insert :
      (n m : String) (status : Status) (c : Context V P)
      → (n ≢ m)
      → is_skipped_status (lookup m (insert n status c.statuses)) ≡ is_skipped m c
  unfolding is_skipped
  is_skipped-insert n m status c ne =
      ap is_skipped_status (lookup-insert_ne n m status c.statuses ne)

  Skips-insert :
      (n : String) (k : FeatureComputation V) (c : Context V P)
      → is_skipped n c ≡ false
      → Skips c (cache_feature n k c)
  unfolding cache_feature is_skipped
  Skips-insert n k c unskipped m h = elim (str_eq-cases n m) [
    | inl (_, e) ↦ cc (unskipped, h, ap (λ (x : String). is_skipped x c) e)
    | inr (_, ne) ↦ is_skipped-insert n m k.status c ne ∙ h
  ]

  module _ (env : Env V P) (base : Context V P) (visiting : List String) (name : String)
      (f : FeatureDef) (known : lookup name env.by_name ≡ some f) (away : ¬ In name visiting) where
    cache_feature-IsTracedFrom :
        (k : FeatureComputation V) (c : Context V P)
        → IsTracedFrom env base c
        → lookup name c.features ≡ none
        → is_skipped name c ≡ false
        → is_skipped_status (some k.status) ≡ false
        → IsOver env c f k
        → IsTracedFrom env base (cache_feature name k c)
    unfolding cache_feature is_skipped
    cache_feature-IsTracedFrom k c t absent unskipped done o =
        let x = Extends-insert name k c absent in
        let y = Skips-insert name k c unskipped in
        record {
          at_name = λ m j h. elim (str_eq-cases name m) [
            | inl (_, e) ↦
                let same : k ≡ j = some-injective _ _ (
                  sym (lookup-insert_self name k c.features)
                  ∙ subst (λ (m : String). lookup m (insert name k c.features) ≡ some j) (sym e)
                      h) in
                inr (
                  f,
                  rw (← e) known,
                  subst (λ (j : FeatureComputation V). IsOver env (cache_feature name k c) f j) same
                      (IsOver-Extends env c (cache_feature name k c) f k x y o),
                )
            | inr (_, ne) ↦
                elim (t.at_name m j (sym (lookup-insert_ne name m k c.features ne) ∙ h)) [
                  | inl there ↦ inl there
                  | inr (g, known', o') ↦
                      inr (g, known', IsOver-Extends env c (cache_feature name k c) g j x y o')
                ]
          ];
          apart = λ m h. elim (str_eq-cases name m) [
            | inl (_, e) ↦
                let told : lookup m (insert name k.status c.statuses) ≡ some k.status =
                  ap (λ (q : String). lookup q (insert name k.status c.statuses)) (sym e)
                  ∙ lookup-insert_self name k.status c.statuses in
                cc (h, done, ap is_skipped_status told)
            | inr (_, ne) ↦
                lookup-insert_ne name m k c.features ne
                ∙ t.apart m (sym (is_skipped-insert name m k.status c ne) ∙ h)
          ];
        }

    pub cached :
        (k : FeatureComputation V) (c : Context V P)
        → IsTracedFrom env base c
        → lookup name c.features ≡ none
        → is_skipped name c ≡ false
        → is_skipped_status (some k.status) ≡ false
        → IsOver env c f k
        → Entered env base visiting name c (some k) (cache_feature name k c)
    unfolding cache_feature is_skipped
    cached k c t absent unskipped done o = record {
      traced = cache_feature-IsTracedFrom k c t absent unskipped done o;
      extends = Extends-insert name k c absent;
      skips = Skips-insert name k c unskipped;
      keeps = λ v i.
          let ne : name ≢ v = λ e. away (rw e i) in
          (lookup-insert_ne name v k c.features ne, is_skipped-insert name v k.status c ne);
      stored = λ j h. lookup-insert_self name k c.features ∙ h;
      passed = λ h. cc;
    }

  module _ (env : Env V P) (base : Context V P) (visiting : List String) (name : String)
      (away : ¬ In name visiting) where
    -- The feature that is being computed is given up.
    pub mark_skipped-Entered :
        (c w : Context V P)
        → lookup name c.features ≡ none
        → After env base (visiting ++ name ∷ []) c w
        → Entered env base visiting name c none (mark_skipped name w)
    unfolding mark_skipped is_skipped
    mark_skipped-Entered c w absent a =
        let told = lookup-insert_self name skipped w.statuses in
        let still =
          (a.keeps name (In-append_right name visiting (name ∷ []) (inl refl))).0 ∙ absent in
        let y : Skips w (mark_skipped name w) = λ m h. elim (str_eq-cases name m) [
          | inl (_, e) ↦ rw (← e, told) refl
          | inr (_, ne) ↦ is_skipped-insert name m skipped w ne ∙ h
        ] in
        record {
          traced = record {
            at_name = λ n k h. elim (a.traced.at_name n k h) [
              | inl there ↦ inl there
              | inr (f, known, o) ↦
                  inr (f, known, IsOver-Extends env w (mark_skipped name w) f k (λ m j p. p) y o)
            ];
            apart = λ m h. elim (str_eq-cases name m) [
              | inl (_, e) ↦ rw (← e) still
              | inr (_, ne) ↦ a.traced.apart m (sym (is_skipped-insert name m skipped w ne) ∙ h)
            ];
          };
          extends = a.extends;
          skips = λ m h. y m (a.skips m h);
          keeps = λ v i.
              let (features, statuses) = a.keeps v (In-append_left v visiting (name ∷ []) i) in
              (features, is_skipped-insert name v skipped w (λ e. away (rw e i)) ∙ statuses);
          stored = λ k h. cc;
          passed = λ _. rw told refl;
        }
