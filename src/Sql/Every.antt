-- ===== src/Sql/Every.antt =====
-- What the statements keep that holds of every row of a table.
use mathlib.Core.Path.{subst}
use revaulter.Base.{
  Eq, ◌≡◌, sym, ◌∙◌, inl, inr, Bool, true, false, none, some, List, [], ◌∷◌, ◌++◌, All, arith,
  Bool-cases,
}
use revaulter.Sql.{update, delete}
use revaulter.Sql.Keyed

module _ {ℓ κ} {A : Type ℓ} (P : A → Type κ) where
  pub All-append : (t : List A) (r : A) → All P t → P r → All P (t ++ r ∷ [])
  All-append [] r a p = (p, tt)
  All-append (x ∷ t) r a p = (a.0, All-append t r a.1 p)

  pub All-delete : (q : A → Bool) (t : List A) → All P t → All P (delete q t)
  unfolding delete
  All-delete q [] a = a
  All-delete q (x ∷ t) a = elim (Bool-cases (q x)) [
    | inl e ↦ rw e (All-delete q t a.1)
    | inr e ↦ rw e (a.0, All-delete q t a.1)
  ]

  -- An UPDATE, on what holds of the rows that it meets and of the others.
  pub All-update :
      (q : A → Bool) (f : A → A) (t : List A)
      → All (λ k. (q k ≡ true → P (f k)) × (q k ≡ false → P k)) t
      → All P (update q f t)
  unfolding update
  All-update q f [] a = tt
  All-update q f (x ∷ t) a = elim (Bool-cases (q x)) [
    | inl e ↦ rw e (a.0.0 e, All-update q f t a.1)
    | inr e ↦ rw e (a.0.1 e, All-update q f t a.1)
  ]

  pub All-map {μ} : {Q : A → Type μ} (t : List A) → ((k : A) → P k → Q k) → All P t → All Q t
  All-map [] h a = tt
  All-map (x ∷ t) h a = (h x a.0, All-map t h a.1)

  pub all_every : (t : List A) → ((k : A) → P k) → All P t
  all_every [] h = tt
  all_every (x ∷ t) h = (h x, all_every t h)

  pub All-both {μ} : (Q : A → Type μ) (t : List A) → All P t → All Q t → All (λ k. P k × Q k) t
  All-both Q [] a b = tt
  All-both Q (x ∷ t) a b = ((a.0, b.0), All-both Q t a.1 b.1)

module _ {ℓ κ} {A : Type ℓ} {K : Type κ} ⦃eq : Eq K⦄ (key : A → K) where
  all_other :
      (s : K) (t : List A) → Keyed.find key s t ≡ none → All (λ k. eq.beq (key k) s ≡ false) t
  unfolding Keyed.find
  all_other s [] e = tt
  all_other s (x ∷ t) e = elim (Bool-cases (eq.beq (key x) s)) [
    | inl q ↦ absurd (ground arith)
    | inr q ↦ (q, all_other s t (sym (rw q) ∙ e))
  ]

  -- A unique key is that of one row only.
  pub all_same :
      (s : K) (t : List A) (r : A)
      → Keyed.Distinct key t
      → Keyed.find key s t ≡ some r
      → All (λ k. eq.beq (key k) s ≡ true → k ≡ r) t
  unfolding Keyed.find
  all_same s [] r d e = tt
  all_same s (x ∷ t) r d e = elim (Bool-cases (eq.beq (key x) s)) [
    | inl q ↦
        let x_is_r : x ≡ r = ground arith in
        let others = all_other (key x) t d.0 in
        (
          λ h. x_is_r,
          All-map (λ k. eq.beq (key k) (key x) ≡ false) t
              (λ k n h. absurd (
                ground
                  (arith, eq.beq_iff (key k) (key x), eq.beq_iff (key k) s, eq.beq_iff (key x) s)))
              others,
        )
    | inr q ↦ (λ h. absurd (ground arith), all_same s t r d.1 (sym (rw q) ∙ e))
  ]

  -- The row that a key finds is a row of the table.
  pub all_found {μ} :
      (P : A → Type μ) (s : K) (t : List A) (r : A) → All P t → Keyed.find key s t ≡ some r → P r
  unfolding Keyed.find
  all_found P s [] r a e = absurd cc
  all_found P s (x ∷ t) r a e = elim (Bool-cases (eq.beq (key x) s)) [
    | inl q ↦ let x_is_r : x ≡ r = ground arith in subst P x_is_r a.0
    | inr q ↦ all_found P s t r a.1 (sym (rw q) ∙ e)
  ]
