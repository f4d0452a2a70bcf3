-- ===== src/Db/Audit/History.antt =====
-- What AuditStore.List selects and in which order, and where a cursor cuts it (internal/db/audit.go).
use mathlib.Core.Path.{subst}
use revaulter.Base.{
  ℕ, zero, suc, ◌+◌, ◌≤◌, inl, inr, ℤ, pos, negsuc, Text, is_empty, length, take, drop, get_elem?,
  ◌≡◌, refl, sym, ap, ◌∙◌, false, ◌&&◌, Bool, not, Option, none, some, List, [], ◌∷◌, ◌++◌, All,
  arith, ltb, ==_iff, text_lt, Bool-cases, text_eq,
}
use revaulter.Sql.{select}
use revaulter.Sql.Keyed
use revaulter.Sql.Rows.{select-select}
use revaulter.Sql.Ordered
use revaulter.Sql.Ordered.{
  order_desc, insert_desc, select-order, select_after, order-Desc, Desc-select, length-order,
  length-select,
}
use revaulter.Db.Audit.Types.{
  AuditEvent, AuditFilter, AuditLog, ok, id_of, matches, is_below, page_size, validate_cursor,
  version, is_event_type,
}

-- List accepts the filter: an actor and the system at once are refused, and so is an unknown type.
pub record IsFilter (f : AuditFilter) : Type 0 where
  pub no_conflict : (not (is_empty f.user_id) && f.system) ≡ false
  pub known_type : (not (is_empty f.event_type) && not (is_event_type f.event_type)) ≡ false

-- uuid.Parse reads the id as a UUID of version 7.
abbrev pub IsV7 : (Text → Option (List ℕ)) → Text → Type 0
IsV7 parse id = (u : List ℕ) × (parse id ≡ some u) × (version (get_elem? u 6) ≡ 7)

pub page_size-suc : (l : ℤ) → (m : ℕ) × (page_size l ≡ suc m)
page_size-suc (negsuc n) = (49, omega arith)
page_size-suc (pos zero) = (49, omega arith)
page_size-suc (pos (suc n)) = elim (Bool-cases (ltb 500 (suc n))) [
  | inl e ↦ (499, ground arith)
  | inr e ↦ (n, ground arith)
]

module _ (parse : Text → Option (List ℕ)) (parse_empty : parse [] ≡ none) where
  pub v7_nonempty : (id : Text) → IsV7 parse id → is_empty id ≡ false
  v7_nonempty [] (u, p, v) = cc
  v7_nonempty (c ∷ s) v = refl

  pub v7_cursor : (id : Text) → IsV7 parse id → validate_cursor parse id ≡ ok id
  unfolding validate_cursor
  v7_cursor id (u, p, v) =
      rw (v7_nonempty id (u, p, v)) (rw p (ground (arith, ==_iff (version (get_elem? u 6)) 7)))

module _ (P : AuditEvent → Type 0) where
  pub All-select : (q : AuditEvent → Bool) (l : AuditLog) → All P l → All P (select q l)
  unfolding select
  All-select q [] a = a
  All-select q (x ∷ l) a = elim (Bool-cases (q x)) [
    | inl e ↦ rw e (a.0, All-select q l a.1)
    | inr e ↦ rw e (All-select q l a.1)
  ]

  All-insert : (x : AuditEvent) (l : AuditLog) → P x → All P l → All P (insert_desc id_of x l)
  unfolding insert_desc
  All-insert x [] p a = (p, tt)
  All-insert x (y ∷ l) p a = elim (Bool-cases (text_lt y.id x.id)) [
    | inl e ↦ rw e (p, a)
    | inr e ↦ rw e (a.0, All-insert x l p a.1)
  ]

  pub All-order : (l : AuditLog) → All P l → All P (order_desc id_of l)
  unfolding order_desc
  All-order [] a = a
  All-order (x ∷ l) a = All-insert x (order_desc id_of l) a.0 (All-order l a.1)

  pub All-elem : (l : AuditLog) (n : ℕ) (x : AuditEvent) → All P l → get_elem? l n ≡ some x → P x
  All-elem [] n x a e = absurd (cc)
  All-elem (y ∷ l) zero x a e = let same_row : y ≡ x = cc in rw (← same_row) a.0
  All-elem (y ∷ l) (suc n) x a e = All-elem l n x a.1 e

pub drop_elem : (k n : ℕ) (l : AuditLog) → get_elem? (drop k l) n ≡ get_elem? l (k + n)
drop_elem zero n l = ap (get_elem? l) (omega arith)
drop_elem (suc k) n [] = refl
drop_elem (suc k) n (x ∷ l) =
    drop_elem k n l
    ∙ sym (ap (get_elem? (x ∷ l)) (let e : suc k + n ≡ suc (k + n) = omega arith in e))

drop_nil : (n : ℕ) → drop {A = AuditEvent} n [] ≡ []
drop_nil zero = refl
drop_nil (suc n) = refl

pub drop-drop : (k n : ℕ) (l : AuditLog) → drop (k + n) l ≡ drop n (drop k l)
drop-drop zero n l = ap (λ z. drop z l) (omega arith)
drop-drop (suc k) n [] = drop_nil (suc k + n) ∙ sym (drop_nil n)
drop-drop (suc k) n (x ∷ l) =
    ap (λ z. drop z (x ∷ l)) (let e : suc k + n ≡ suc (k + n) = omega arith in e) ∙ drop-drop k n l

pub take-drop : (n : ℕ) (l : AuditLog) → take n l ++ drop n l ≡ l
take-drop zero l = refl
take-drop (suc n) [] = refl
take-drop (suc n) (x ∷ l) = ap (λ z. x ∷ z) (take-drop n l)

pub length-drop : (n : ℕ) (l : AuditLog) → n ≤ length l → length (drop n l) + n ≡ length l
length-drop zero l h = omega arith
length-drop (suc n) [] h = absurd (omega arith)
length-drop (suc n) (x ∷ l) h = omega (arith, length-drop n l (omega arith))

select_and_comm :
    (p q : AuditEvent → Bool) (l : AuditLog)
    → select (λ r. p r && q r) l ≡ select (λ r. q r && p r) l
unfolding select
select_and_comm p q [] = refl
select_and_comm p q (x ∷ l) = ground (arith, select_and_comm p q l)

pub below_cursor :
    (k : Text) (l : AuditLog)
    → is_empty k ≡ false
    → select (is_below k) l ≡ select (λ r. text_lt r.id k) l
unfolding select
below_cursor k [] h = refl
below_cursor k (x ∷ l) h = rw h (ground (arith, below_cursor k l h))

module _ (f : AuditFilter) (t : AuditLog) (d : Keyed.Distinct id_of t) where
  -- All that the filter lets through, the newest first.
  abbrev pub history : AuditLog
  history = order_desc id_of (select (matches f) t)

  -- The WHERE with the cursor's clause.
  pub from_cursor :
      (c : Text)
      → order_desc id_of (select (λ r. matches f r && is_below c r) t) ≡ select (is_below c) history
  from_cursor c =
      sym (select-order id_of (λ r. matches f r && is_below c r) t d)
      ∙ select_and_comm (matches f) (is_below c) (order_desc id_of t)
      ∙ sym (select-select (is_below c) (matches f) (order_desc id_of t))
      ∙ ap (select (is_below c)) (select-order id_of (matches f) t d)

  pub history-Desc : Ordered.Desc id_of history
  history-Desc =
      subst (Ordered.Desc id_of) (select-order id_of (matches f) t d)
        (Desc-select id_of (matches f) (order_desc id_of t) (order-Desc id_of t d))
