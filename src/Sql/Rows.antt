-- ===== src/Sql/Rows.antt =====
-- A statement that names one key: it hits a row that its WHERE lets through, or it misses.
use revaulter.Base.{
  ◌≡◌, refl, sym, ap, ◌∙◌, ◌≤◌, ◌+◌, ◌⊎◌, inl, inr, Bool, true, false, ◌&&◌, Option, none, some,
  List, [], ◌∷◌, ◌++◌, length, arith, Bool-cases,
}
use revaulter.Sql.{select, update, delete, count, first, adjust, drop_if, keep_if}

module _ {ℓ} {A : Type ℓ} (p : A → Bool) where
  pub hit_or_miss :
      (o : Option A)
      → ((r : A) × (o ≡ some r) × (p r ≡ true))
        ⊎ ((keep_if p o ≡ none) × ((r : A) → o ≡ some r → p r ≡ false))
  hit_or_miss none = inr (refl, λ r e. cc)
  hit_or_miss (some r) = elim (Bool-cases (p r)) [
    | inl e ↦ inl (r, refl, e)
    | inr e ↦ inr (rw e, λ x q. ground arith)
  ]

  pub adjust_miss : (f : A → A) (o : Option A) → keep_if p o ≡ none → adjust p f o ≡ o
  adjust_miss f none e = refl
  adjust_miss f (some r) e = ground arith

  pub drop_miss : (o : Option A) → keep_if p o ≡ none → drop_if p o ≡ o
  drop_miss none e = refl
  drop_miss (some r) e = ground arith

  pub keep_none : (o : Option A) → ((r : A) → o ≡ some r → p r ≡ false) → keep_if p o ≡ none
  keep_none none h = refl
  keep_none (some r) h = rw (h r refl)

module _ {ℓ} {A : Type ℓ} where
  pub count-select : (p : A → Bool) (l : List A) → length (select p l) ≡ count p l
  unfolding select count
  count-select p [] = refl
  count-select p (r ∷ l) = ground (arith, count-select p l)

  pub select-select :
      (q p : A → Bool) (l : List A) → select q (select p l) ≡ select (λ r. q r && p r) l
  unfolding select
  select-select q p [] = refl
  select-select q p (r ∷ l) = ground (arith, select-select q p l)

  pub count_within :
      (q p : A → Bool) (l : List A) → count q (select p l) ≡ count (λ r. q r && p r) l
  count_within q p l =
      sym (count-select q (select p l))
      ∙ ap length (select-select q p l)
      ∙ count-select (λ r. q r && p r) l

  pub first-none : (l : List A) → first l ≡ none → l ≡ []
  unfolding first
  first-none [] e = refl
  first-none (r ∷ l) e = cc

  -- A statement that hits nothing.
  pub delete_nothing : (p : A → Bool) (l : List A) → select p l ≡ [] → delete p l ≡ l
  unfolding select delete
  delete_nothing p [] e = refl
  delete_nothing p (r ∷ l) e = ground (arith, delete_nothing p l)

  -- A narrower WHERE hits no more.
  pub select_narrower :
      (q p : A → Bool) (l : List A)
      → ((r : A) → q r ≡ true → p r ≡ true)
      → select p l ≡ []
      → select q l ≡ []
  unfolding select
  select_narrower q p [] h e = refl
  select_narrower q p (r ∷ l) h e = ground (arith, h r, select_narrower q p l)

  pub count-delete : (p q : A → Bool) (l : List A) → count p l ≤ count p (delete q l) + count q l
  unfolding count delete
  count-delete p q [] = omega arith
  count-delete p q (r ∷ l) = ground (arith, count-delete p q l)

  pub count-update :
      (p q : A → Bool) (f : A → A) (l : List A)
      → ((r : A) → p (f r) ≡ p r)
      → count p (update q f l) ≡ count p l
  unfolding count update
  count-update p q f [] h = refl
  count-update p q f (r ∷ l) h = ground (arith, h r, count-update p q f l)

  pub count-append : (p : A → Bool) (l : List A) (r : A) → count p l ≤ count p (l ++ r ∷ [])
  unfolding count
  count-append p [] r = ground arith
  count-append p (x ∷ l) r = ground (arith, count-append p l r)

  -- Rows that a DELETE does not reach.
  pub count_apart :
      (p q : A → Bool) (l : List A)
      → ((r : A) → q r ≡ true → p r ≡ false)
      → count p (delete q l) ≡ count p l
  unfolding count delete
  count_apart p q [] h = refl
  count_apart p q (r ∷ l) h = ground (arith, h r, count_apart p q l h)
