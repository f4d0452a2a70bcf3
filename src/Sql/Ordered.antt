-- ===== src/Sql/Ordered.antt =====
-- ORDER BY a text column, DESC: an insertion sort, and what it does to a WHERE and to a page.
use mathlib.Core.Path.{subst}
use revaulter.Base.{
  ℕ, zero, suc, ◌≤◌, length, Text, text_eq, same, same_iff, ◌≡◌, refl, sym, ap, ◌∙◌, Bool, true,
  false, none, some, List, [], ◌∷◌, All, get_elem?, drop, arith, if◌then◌else◌, text_lt,
  text_lt_irrefl, text_lt_trans, text_lt_asym, text_lt_total, Bool-cases, inl, inr,
}
use revaulter.Sql.{select}
use revaulter.Sql.Keyed

module _ {ℓ} {A : Type ℓ} (key : A → Text) where
  unfoldable pub insert_desc : A → List A → List A
  insert_desc x [] = x ∷ []
  insert_desc x (y ∷ l) =
      let rest = insert_desc x l in if text_lt (key y) (key x) then x ∷ y ∷ l else y ∷ rest

  unfoldable pub order_desc : List A → List A
  unfolding insert_desc
  order_desc [] = []
  order_desc (x ∷ l) = insert_desc x (order_desc l)

  -- Every row of the list comes after `x`.
  abbrev pub Below : Text → List A → Type 0
  Below k l = All (λ y. text_lt (key y) k ≡ true) l

  abbrev pub Desc : List A → Type 0
  Desc [] = Unit
  Desc (x ∷ l) = Below (key x) l × Desc l

  Below-trans : (k k' : Text) (l : List A) → text_lt k k' ≡ true → Below k l → Below k' l
  Below-trans k k' [] h b = b
  Below-trans k k' (y ∷ l) h b = (text_lt_trans (key y) k k' b.0 h, Below-trans k k' l h b.1)

  Below-insert :
      (k : Text) (x : A) (l : List A)
      → text_lt (key x) k ≡ true
      → Below k l
      → Below k (insert_desc x l)
  unfolding insert_desc
  Below-insert k x [] h b = (h, tt)
  Below-insert k x (y ∷ l) h b = elim (Bool-cases (text_lt (key y) (key x))) [
    | inl e ↦ rw e (h, b)
    | inr e ↦ rw e (b.0, Below-insert k x l h b.1)
  ]

  above :
      (x y : A) (l : List A)
      → Keyed.find key (key x) (y ∷ l) ≡ none
      → text_lt (key y) (key x) ≡ false
      → text_lt (key x) (key y) ≡ true
  unfolding Keyed.find
  above x y l f h = elim (Bool-cases (text_lt (key x) (key y))) [
    | inl e ↦ e
    | inr e ↦ ground (arith, text_lt_total (key y) (key x) h e, same_iff (key y) (key x))
  ]

  absent_below :
      (x y : A) (l : List A)
      → Keyed.find key (key x) (y ∷ l) ≡ none
      → Keyed.find key (key x) l ≡ none
  unfolding Keyed.find
  absent_below x y l f = ground arith

  pub insert-Desc :
      (x : A) (l : List A) → Keyed.find key (key x) l ≡ none → Desc l → Desc (insert_desc x l)
  unfolding insert_desc
  insert-Desc x [] f d = (tt, tt)
  insert-Desc x (y ∷ l) f d = elim (Bool-cases (text_lt (key y) (key x))) [
    | inl e ↦ rw e ((e, Below-trans (key y) (key x) l e d.0), d)
    | inr e ↦
        rw e (
          Below-insert (key y) x l (above x y l f e) d.0,
          insert-Desc x l (absent_below x y l f) d.1,
        )
  ]

  absent-insert :
      (k : Text) (x : A) (l : List A)
      → same (key x) k ≡ false
      → Keyed.find key k l ≡ none
      → Keyed.find key k (insert_desc x l) ≡ none
  unfolding insert_desc Keyed.find
  absent-insert k x [] h f = ground arith
  absent-insert k x (y ∷ l) h f = ground (arith, absent-insert k x l)

  absent-order :
      (k : Text) (l : List A) → Keyed.find key k l ≡ none → Keyed.find key k (order_desc l) ≡ none
  unfolding order_desc Keyed.find
  absent-order k [] f = f
  absent-order k (x ∷ l) f = elim (Bool-cases (same (key x) k)) [
    | inl e ↦ absurd (ground arith)
    | inr e ↦ absent-insert k x (order_desc l) e (absent-order k l (ground arith))
  ]

  -- Distinct keys sort into a strictly descending list.
  pub order-Desc : (l : List A) → Keyed.Distinct key l → Desc (order_desc l)
  unfolding order_desc
  order-Desc [] d = tt
  order-Desc (x ∷ l) d =
      insert-Desc x (order_desc l) (absent-order (key x) l d.0) (order-Desc l d.1)

  insert_first : (x : A) (l : List A) → Below (key x) l → insert_desc x l ≡ x ∷ l
  unfolding insert_desc
  insert_first x [] b = refl
  insert_first x (y ∷ l) b = rw (b.0)

  module _ (q : A → Bool) where
    Below-select : (k : Text) (l : List A) → Below k l → Below k (select q l)
    unfolding select
    Below-select k [] b = b
    Below-select k (y ∷ l) b = elim (Bool-cases (q y)) [
      | inl e ↦ rw e (b.0, Below-select k l b.1)
      | inr e ↦ rw e (Below-select k l b.1)
    ]

    select-insert :
        (x : A) (l : List A)
        → Desc l
        → select q (insert_desc x l) ≡ (if q x then insert_desc x (select q l) else select q l)
    unfolding select insert_desc
    select-insert x [] d = refl
    select-insert x (y ∷ l) d = elim (Bool-cases (text_lt (key y) (key x))) [
      | inl e ↦ rw e (
          ap (λ z. if q x then z else select q (y ∷ l))
            (sym (
              insert_first x (select q (y ∷ l))
                (Below-select (key x) (y ∷ l) (e, Below-trans (key y) (key x) l e d.0)))))
      | inr e ↦ elim (Bool-cases (q y)) [
        | inl h ↦ ground (arith, select-insert x l d.1)
        | inr h ↦ ground (arith, select-insert x l d.1)
      ]
    ]

    -- A WHERE before or after the ORDER BY.
    pub select-order :
        (l : List A) → Keyed.Distinct key l → select q (order_desc l) ≡ order_desc (select q l)
    unfolding select order_desc
    select-order [] d = refl
    select-order (x ∷ l) d =
        select-insert x (order_desc l) (order-Desc l d.1) ∙ ground (arith, select-order l d.1)

  select_all : (k : Text) (l : List A) → Below k l → select (λ r. text_lt (key r) k) l ≡ l
  unfolding select
  select_all k [] b = refl
  select_all k (y ∷ l) b = ground (arith, select_all k l b.1)

  elem-Below :
      (k : Text) (l : List A) (n : ℕ) (x : A)
      → Below k l
      → get_elem? l n ≡ some x
      → text_lt (key x) k ≡ true
  elem-Below k [] n x b e = cc
  elem-Below k (y ∷ l) zero x b e = ground (arith, b.0)
  elem-Below k (y ∷ l) (suc n) x b e = elem-Below k l n x b.1 e

  -- What comes after the n-th row.
  pub select_after :
      (l : List A) (n : ℕ) (x : A)
      → Desc l
      → get_elem? l n ≡ some x
      → select (λ r. text_lt (key r) (key x)) l ≡ drop (suc n) l
  unfolding select
  select_after [] n x d e = cc
  select_after (y ∷ l) zero x d e =
      let same_row : y ≡ x = cc in
      let level : text_lt (key y) (key x) ≡ false = rw same_row (text_lt_irrefl (key x)) in
      rw level (select_all (key x) l (subst (λ z. Below (key z) l) same_row d.0))
  select_after (y ∷ l) (suc n) x d e =
      rw (text_lt_asym (key x) (key y) (elem-Below (key y) l n x d.0 e)) (select_after l n x d.1 e)

  pub Desc-select : (q : A → Bool) (l : List A) → Desc l → Desc (select q l)
  unfolding select
  Desc-select q [] d = d
  Desc-select q (x ∷ l) d = elim (Bool-cases (q x)) [
    | inl e ↦ rw e (Below-select q (key x) l d.0, Desc-select q l d.1)
    | inr e ↦ rw e (Desc-select q l d.1)
  ]

  length-insert : (x : A) (l : List A) → length (insert_desc x l) ≡ suc (length l)
  unfolding insert_desc
  length-insert x [] = refl
  length-insert x (y ∷ l) = ground (arith, length-insert x l)

  pub length-order : (l : List A) → length (order_desc l) ≡ length l
  unfolding order_desc
  length-order [] = refl
  length-order (x ∷ l) = length-insert x (order_desc l) ∙ ap suc (length-order l)

  pub length-select : (q : A → Bool) (l : List A) → length (select q l) ≤ length l
  unfolding select
  length-select q [] = omega arith
  length-select q (x ∷ l) = ground (arith, length-select q l)
