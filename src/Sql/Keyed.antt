-- ===== src/Sql/Keyed.antt =====
-- A table with a primary key, or another unique index: what each statement does to the row that a key finds.
use mathlib.Core.Option
use revaulter.Base.{
  map, ap, ◌∙◌, Eq, ◌≡◌, refl, Bool, ◌&&◌, Option, none, some, List, [], ◌∷◌, ◌++◌, arith,
  if◌then◌else◌,
}
use revaulter.Sql.{select, update, delete, count, first, adjust, drop_if, keep_if}

module _ {ℓ κ} {A : Type ℓ} {K : Type κ} ⦃eq : Eq K⦄ (key : A → K) where
  unfoldable pub find : K → List A → Option A
  find k [] = none
  find k (r ∷ rs) = if eq.beq (key r) k then some r else find k rs

  -- PRIMARY KEY: no two rows share it.
  abbrev pub Distinct : List A → Type ℓ
  Distinct [] = Unit
  Distinct (r ∷ rs) = (find (key r) rs ≡ none) × Distinct rs

  -- INSERT: refused when a row has the key already.
  unfoldable pub insert : A → List A → Option (List A)
  insert r rs = elim (find (key r) rs) [ none ↦ some (rs ++ r ∷ []) | some _ ↦ none ]

  pub find-key : (k : K) (rs : List A) (r : A) → find k rs ≡ some r → key r ≡ k
  unfolding find
  find-key k [] r e = cc
  find-key k (x ∷ rs) r e = ground (arith, eq.beq_iff (key x) k, find-key k rs r)

  pub find-append :
      (k : K) (rs : List A) (r : A)
      → find k rs ≡ none
      → find k (rs ++ r ∷ []) ≡ (if eq.beq (key r) k then some r else none)
  unfolding find
  find-append k [] r e = refl
  find-append k (x ∷ rs) r e = ground (arith, find-append k rs r)

  -- After an INSERT of a fresh key.
  pub find-append_fresh :
      (k : K) (rs : List A) (r : A)
      → find (key r) rs ≡ none
      → find k (rs ++ r ∷ []) ≡ (if eq.beq (key r) k then some r else find k rs)
  unfolding find
  find-append_fresh k [] r e = refl
  find-append_fresh k (x ∷ rs) r e = ground (
    arith,
    find-append_fresh k rs r,
    eq.beq_iff (key x) k,
    eq.beq_iff (key r) k,
    eq.beq_iff (key x) (key r),
  )

  module _ (p : A → Bool) where
    pub find-delete-none : (k : K) (rs : List A) → find k rs ≡ none → find k (delete p rs) ≡ none
    unfolding find delete
    find-delete-none k [] e = refl
    find-delete-none k (r ∷ rs) e = ground (arith, find-delete-none k rs)

    pub find-delete :
        (k : K) (rs : List A) → Distinct rs → find k (delete p rs) ≡ drop_if p (find k rs)
    unfolding find delete
    find-delete k [] d = refl
    find-delete k (r ∷ rs) d =
        ground (arith, find-delete k rs d.1, eq.beq_iff (key r) k, find-delete-none k rs)

    pub Distinct-delete : (rs : List A) → Distinct rs → Distinct (delete p rs)
    unfolding delete
    Distinct-delete [] d = d
    Distinct-delete (r ∷ rs) d =
        ground (arith, Distinct-delete rs d.1, find-delete-none (key r) rs d.0)

    select_absent :
        (k : K) (rs : List A)
        → find k rs ≡ none
        → first (select (λ r. eq.beq (key r) k && p r) rs) ≡ none
    unfolding find select first
    select_absent k [] e = refl
    select_absent k (r ∷ rs) e = ground (arith, select_absent k rs)

    -- `WHERE key = k AND p`: at most the row that the key finds.
    pub first-select :
        (k : K) (rs : List A)
        → Distinct rs
        → first (select (λ r. eq.beq (key r) k && p r) rs) ≡ keep_if p (find k rs)
    unfolding find select first
    first-select k [] d = refl
    first-select k (r ∷ rs) d =
        ground (arith, first-select k rs d.1, eq.beq_iff (key r) k, select_absent k rs)

    module _ (f : A → A) (keeps : (r : A) → key (f r) ≡ key r) where
      pub find-update : (k : K) (rs : List A) → find k (update p f rs) ≡ adjust p f (find k rs)
      unfolding find update
      find-update k [] = refl
      find-update k (r ∷ rs) = ground (arith, find-update k rs, keeps r)

      pub Distinct-update : (rs : List A) → Distinct rs → Distinct (update p f rs)
      unfolding update
      Distinct-update [] d = d
      Distinct-update (r ∷ rs) d =
          ground (arith, Distinct-update rs d.1, find-update (key r) rs, keeps r)

  pub Distinct-append :
      (rs : List A) (r : A) → find (key r) rs ≡ none → Distinct rs → Distinct (rs ++ r ∷ [])
  unfolding find
  Distinct-append [] r e d = (refl, d)
  Distinct-append (x ∷ rs) r e d = ground (
    arith,
    Distinct-append rs r,
    find-append (key x) rs r d.0,
    eq.beq_iff (key x) (key r),
    eq.beq_iff (key r) (key x),
  )

  -- A statement whose WHERE names one key touches that key's row only.
  adjust_at :
      (p : A → Bool) (f : A → A) (s k : K) (rs : List A) (o : Option A)
      → find k rs ≡ o
      → adjust (λ r. eq.beq (key r) s && p r) f o ≡ (if eq.beq s k then adjust p f o else o)
  adjust_at p f s k rs none e = ground arith
  adjust_at p f s k rs (some r) e =
      ground (arith, find-key k rs r e, eq.beq_iff (key r) s, eq.beq_iff s k, eq.beq_iff k s)

  pub find-update_at :
      (p : A → Bool) (f : A → A) (keeps : (r : A) → key (f r) ≡ key r) (s k : K) (rs : List A)
      → find k (update (λ r. eq.beq (key r) s && p r) f rs)
        ≡ (if eq.beq s k then adjust p f (find k rs) else find k rs)
  find-update_at p f keeps s k rs =
      find-update (λ r. eq.beq (key r) s && p r) f keeps k rs
      ∙ adjust_at p f s k rs (find k rs) refl

  drop_at :
      (p : A → Bool) (s k : K) (rs : List A) (o : Option A)
      → find k rs ≡ o
      → drop_if (λ r. eq.beq (key r) s && p r) o ≡ (if eq.beq s k then drop_if p o else o)
  drop_at p s k rs none e = ground arith
  drop_at p s k rs (some r) e =
      ground (arith, find-key k rs r e, eq.beq_iff (key r) s, eq.beq_iff s k, eq.beq_iff k s)

  pub find-delete_at :
      (p : A → Bool) (s k : K) (rs : List A)
      → Distinct rs
      → find k (delete (λ r. eq.beq (key r) s && p r) rs)
        ≡ (if eq.beq s k then drop_if p (find k rs) else find k rs)
  find-delete_at p s k rs d =
      find-delete (λ r. eq.beq (key r) s && p r) k rs d ∙ drop_at p s k rs (find k rs) refl

  -- RETURNING, of a statement whose WHERE names one key.
  first-map {μ} :
      {B : Type μ} (f : A → B) (p : A → Bool) (rs : List A)
      → first (map f (select p rs)) ≡ Option.map f (first (select p rs))
  unfolding select first
  first-map f p [] = refl
  first-map f p (r ∷ rs) = ground (arith, first-map f p rs)

  pub first-returning {μ} :
      {B : Type μ} (f : A → B) (p : A → Bool) (s : K) (rs : List A)
      → Distinct rs
      → first (map f (select (λ r. eq.beq (key r) s && p r) rs))
        ≡ Option.map f (keep_if p (find s rs))
  first-returning f p s rs d =
      first-map f (λ r. eq.beq (key r) s && p r) rs ∙ ap (Option.map f) (first-select p s rs d)

  -- The rows of one key, counted.
  count_absent :
      (p : A → Bool) (k : K) (rs : List A)
      → find k rs ≡ none
      → count (λ r. eq.beq (key r) k && p r) rs ≡ 0
  unfolding find count
  count_absent p k [] e = refl
  count_absent p k (r ∷ rs) e = ground (arith, count_absent p k rs)

  pub count_at :
      (p : A → Bool) (k : K) (rs : List A)
      → Distinct rs
      → count (λ r. eq.beq (key r) k && p r) rs
        ≡ elim (keep_if p (find k rs)) [ none ↦ 0 | some r ↦ 1 ]
  unfolding find count
  count_at p k [] d = refl
  count_at p k (r ∷ rs) d =
      ground (arith, count_at p k rs d.1, count_absent p k rs, eq.beq_iff (key r) k)
