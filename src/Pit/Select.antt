-- ===== src/Pit/Select.antt =====
-- fs_core/pit.py: what the selection returns, for an aware observation time `t` and a gap `g`.
use clearfeature.Prelude.{
  ℕ, ◌+◌, ◌-◌, ◌≤◌, ◌<◌, ◌≡◌, refl, sym, ◌∙◌, ap, ◌↔◌, ◌⊎◌, inl, inr, Bool, true, ◌&&◌, Option,
  none, some, List, [], ◌∷◌, ◌++◌, All, arith, ltb, leb, if◌then◌else◌, ok, pos, Bool-cases,
}
use clearfeature.Domain.{aware}
use clearfeature.Offline.{OfflineRecord}
use clearfeature.Pit.{effective_available, not_older, newer, consider, select_from, select_pit}

module _ {V : Type 0} where
  -- The row was known by `t`, and its data is at least `g` older than `t`.
  abbrev pub Eligible : ℕ → ℕ → OfflineRecord V → Type 0
  Eligible t g r = (r.result.data_ts + g ≤ t) × (effective_available r.result ≤ t)

  -- `a` is not newer than `b`, by `data_ts` and then by `calc_ts`; and strictly older.
  abbrev pub NotNewer : OfflineRecord V → OfflineRecord V → Type 0
  NotNewer a b =
      (a.result.data_ts < b.result.data_ts)
      ⊎ ((a.result.data_ts ≡ b.result.data_ts) × (a.result.calc_ts ≤ b.result.calc_ts))

  abbrev pub Older : OfflineRecord V → OfflineRecord V → Type 0
  Older a b =
      (a.result.data_ts < b.result.data_ts)
      ⊎ ((a.result.data_ts ≡ b.result.data_ts) × (a.result.calc_ts < b.result.calc_ts))

  -- The eligible row that no eligible row is newer than, and the last of those as new as it.
  pub record IsLatest (t g : ℕ) (records : List (OfflineRecord V)) (sel : OfflineRecord V)
      : Type 0 where
    pub before : List (OfflineRecord V)
    pub after : List (OfflineRecord V)
    pub split : records ≡ before ++ sel ∷ after
    pub eligible : Eligible t g sel
    pub none_newer : All (λ r. Eligible t g r → NotNewer r sel) before
    pub later_older : All (λ r. Eligible t g r → Older r sel) after

  -- How many rows describe data from after the observation.
  abbrev pub count_future : ℕ → List (OfflineRecord V) → ℕ
  count_future t [] = 0
  count_future t (r ∷ rs) =
      let rest = count_future t rs in if ltb t r.result.data_ts then rest + 1 else rest

  module _ (t g : ℕ) (in_range : g ≤ t) where
    abbrev eligible? : OfflineRecord V → Bool
    eligible? r = leb r.result.data_ts (t - g) && leb (effective_available r.result) t

    abbrev choose : List (OfflineRecord V) → Option (OfflineRecord V) → Option (OfflineRecord V)
    choose [] s = s
    choose (r ∷ rs) s = choose rs (if eligible? r then newer s r else s)

    consider-eq :
        (r : OfflineRecord V) (s : Option (OfflineRecord V)) (n : ℕ)
        → consider (aware t) (pos g) r (s, n)
          ≡ ok (if eligible? r then newer s r else s, if ltb t r.result.data_ts then n + 1 else n)
    unfolding consider
    consider-eq r s n = ground arith

    select_from-eq :
        (rs : List (OfflineRecord V)) (s : Option (OfflineRecord V)) (n : ℕ)
        → select_from (aware t) (pos g) rs (s, n) ≡ ok (choose rs s, n + count_future t rs)
    unfolding select_from
    select_from-eq [] s n = ground arith
    select_from-eq (r ∷ rs) s n = rw (consider-eq r s n) (
        ground (
          arith,
          select_from-eq rs (if eligible? r then newer s r else s)
              (if ltb t r.result.data_ts then n + 1 else n),
        ))

    -- How the outcome of the loop relates to the row it began with.
    abbrev Chosen :
        Option (OfflineRecord V) → List (OfflineRecord V) → Option (OfflineRecord V) → Type 0
    Chosen s rs none = (s ≡ none) × All (λ r. ¬ Eligible t g r) rs
    Chosen s rs (some sel) =
        (s ≡ some sel) × All (λ r. Eligible t g r → Older r sel) rs
        ⊎ IsLatest t g rs sel × ((o : OfflineRecord V) → s ≡ some o → NotNewer o sel)

    eligible?-iff : (r : OfflineRecord V) → (eligible? r ≡ true) ↔ Eligible t g r
    eligible?-iff r = ground arith

    Chosen-skip :
        (r : OfflineRecord V) (rs : List (OfflineRecord V)) (s o : Option (OfflineRecord V))
        → ¬ Eligible t g r
        → Chosen s rs o
        → Chosen s (r ∷ rs) o
    Chosen-skip r rs s none no_r c = (c.0, (no_r, c.1))
    Chosen-skip r rs s (some sel) no_r (inl (e, older)) = inl (e, (λ h. absurd (no_r h), older))
    Chosen-skip r rs s (some sel) no_r (inr (l, newer_than)) = inr (
      record {
        before = r ∷ l.before;
        after = l.after;
        split = ap (λ (q : List (OfflineRecord V)). r ∷ q) l.split;
        eligible = l.eligible;
        none_newer = (λ h. absurd (no_r h), l.none_newer);
        later_older = l.later_older;
      },
      newer_than,
    )

    -- The row that is kept of two, and the other.
    newer-cases :
        (s : Option (OfflineRecord V)) (r : OfflineRecord V)
        → (newer s r ≡ some r) × ((o : OfflineRecord V) → s ≡ some o → NotNewer o r)
          ⊎ ((x : OfflineRecord V) × (newer s r ≡ some x) × (s ≡ some x) × Older r x)
    unfolding newer
    newer-cases none r = inl (refl, λ o e. cc)
    newer-cases (some x) r = elim (Bool-cases (not_older r x)) [
      | inl t' ↦ inl (rw t', λ o e. ground arith)
      | inr f ↦ inr (x, rw f, refl, ground arith)
    ]

    NotNewer-trans : (a b c : OfflineRecord V) → NotNewer a b → NotNewer b c → NotNewer a c
    NotNewer-trans a b c h k = ground arith

    Older→NotNewer : (a b : OfflineRecord V) → Older a b → NotNewer a b
    Older→NotNewer a b h = ground arith

    Chosen-take :
        (r : OfflineRecord V) (rs : List (OfflineRecord V)) (s o : Option (OfflineRecord V))
        → Eligible t g r
        → Chosen (newer s r) rs o
        → Chosen s (r ∷ rs) o
    Chosen-take r rs s none el c = elim (newer-cases s r) [
      | inl (e, _) ↦ cc (c.0, e)
      | inr (x, e, _, _) ↦ cc (c.0, e)
    ]
    Chosen-take r rs s (some sel) el (inl (e, older)) = elim (newer-cases s r) [
      | inl (e', below) ↦
          let same : r ≡ sel = cc (e, e') in
          inr (
            record {
              before = [];
              after = rs;
              split = ap (λ q. q ∷ rs) same;
              eligible = rw same at el;
              none_newer = tt;
              later_older = older;
            },
            rw same at below,
          )
      | inr (x, e', was, o) ↦
          let same : x ≡ sel = cc (e, e') in inl (rw same at was, (λ _. rw same at o, older))
    ]
    Chosen-take r rs s (some sel) el (inr (l, above)) = inr (
      record {
        before = r ∷ l.before;
        after = l.after;
        split = ap (λ (q : List (OfflineRecord V)). r ∷ q) l.split;
        eligible = l.eligible;
        none_newer = (λ _. r_below, l.none_newer);
        later_older = l.later_older;
      },
      λ o was. elim (newer-cases s r) [
        | inl (e', below) ↦ NotNewer-trans o r sel (below o was) (above r e')
        | inr (x, e', was', _) ↦ above o (e' ∙ sym was' ∙ was)
      ],
    )
      where
        r_below : NotNewer r sel
        r_below = elim (newer-cases s r) [
          | inl (e', _) ↦ above r e'
          | inr (x, e', _, o) ↦ NotNewer-trans r x sel (Older→NotNewer r x o) (above x e')
        ]

    choose-Chosen :
        (rs : List (OfflineRecord V)) (s : Option (OfflineRecord V)) → Chosen s rs (choose rs s)
    choose-Chosen [] none = (refl, tt)
    choose-Chosen [] (some x) = inl (refl, tt)
    choose-Chosen (r ∷ rs) s = elim (Bool-cases (eligible? r)) [
      | inl y ↦ rw y (Chosen-take r rs s _ ((eligible?-iff r).0 y) (choose-Chosen rs (newer s r)))
      | inr n ↦
          rw n (Chosen-skip r rs s _ (λ h. cc (n, (eligible?-iff r).1 h)) (choose-Chosen rs s))
    ]

    -- Rows that are not eligible do not change the choice when they come last.
    choose-append :
        (rs later : List (OfflineRecord V)) (s : Option (OfflineRecord V))
        → All (λ r. ¬ Eligible t g r) later
        → choose (rs ++ later) s ≡ choose rs s
    choose-append [] [] s h = refl
    choose-append [] (r ∷ later) s h = elim (Bool-cases (eligible? r)) [
      | inl y ↦ absurd (h.0 ((eligible?-iff r).0 y))
      | inr n ↦ rw (n, choose) (choose-append [] later s h.1)
    ]
    choose-append (r ∷ rs) later s h = choose-append rs later _ h

    pub selected_of : List (OfflineRecord V) → Option (OfflineRecord V)
    selected_of records = choose records none

    pub select_pit-eq :
        (records : List (OfflineRecord V))
        → select_pit records (aware t) (pos g) ≡ ok (selected_of records, count_future t records)
    unfolding select_pit selected_of
    select_pit-eq records =
        select_from-eq records none 0 ∙ ap (λ n. ok (choose records none, n)) (omega arith)

    pub selected_of-append :
        (rs later : List (OfflineRecord V))
        → All (λ r. ¬ Eligible t g r) later
        → selected_of (rs ++ later) ≡ selected_of rs
    unfolding selected_of
    selected_of-append rs later h = choose-append rs later none h

    -- Nothing where no row is eligible, else the latest eligible row.
    abbrev pub Selected : List (OfflineRecord V) → Option (OfflineRecord V) → Type 0
    Selected records none = All (λ r. ¬ Eligible t g r) records
    Selected records (some sel) = IsLatest t g records sel

    Chosen→Selected :
        (rs : List (OfflineRecord V)) (o : Option (OfflineRecord V))
        → Chosen none rs o
        → Selected rs o
    Chosen→Selected rs none c = c.1
    Chosen→Selected rs (some sel) (inl (e, _)) = cc e
    Chosen→Selected rs (some sel) (inr (l, _)) = l

    pub selected_of-Selected :
        (records : List (OfflineRecord V)) → Selected records (selected_of records)
    unfolding selected_of
    selected_of-Selected records = Chosen→Selected records _ (choose-Chosen records none)

    -- For an aware observation time and a gap that does not pass it, the selection succeeds. It
    -- counts the rows of the future, and it returns nothing where no row is eligible, else the
    -- latest eligible row, of equally new ones the last.
    pub select_pit-Selected :
        (records : List (OfflineRecord V))
        → (selected : Option (OfflineRecord V)) × (select_pit records (aware t) (pos g)
            ≡ ok (selected, count_future t records))
          × Selected records selected
    select_pit-Selected records =
        (selected_of records, select_pit-eq records, selected_of-Selected records)
