-- ===== src/Db/Requests/Listing.antt =====
-- ListPending: exactly the live requests that the user may see, oldest first.
use revaulter.Base.{
  ℕ, ◌≤◌, Text, same, same_iff, is_empty, ◌≡◌, refl, ap, ◌∙◌, ◌⊎◌, inl, inr, Bool, true, leb, some,
  List, [], ◌∷◌, map, arith, All, Has, here, there, Bool-cases, if◌then◌else◌,
}
use revaulter.Sql.{up, select, update, adjust}
use revaulter.Sql.Keyed
use revaulter.Time.{unix}
use revaulter.Db.Requests.{
  pending, expired, RequestRow, RequestListItem, Requests, ok, find, is_overdue, is_listed, item_of,
  set_status, insert_by_date, order_by_date, list_pending, expire_pending,
}
use revaulter.Db.Requests.Outcomes.{is_pending→eq}
use revaulter.Db.Requests.View.{find-expire_pending}

-- Each date is at most the next.
abbrev pub Ordered : List RequestListItem → Type 0
Ordered [] = Unit
Ordered (i ∷ l) = All (λ j. i.date ≤ j.date) l × Ordered l

-- Whom a listing for `user` shows: everybody's requests if no user is named.
abbrev pub Visible : Text → Text → Type 0
Visible user owner = (is_empty user ≡ true) ⊎ (owner ≡ user)

-- A live request that the user may see, as an item of the list.
pub record Shown (now : ℕ) (user : Text) (i : RequestListItem) : Type 0 where
  pub waits : i.status ≡ pending
  pub visible : Visible user i.user_id
  pub in_time : unix now ≤ i.expiry

All-insert_by_date :
    (P : RequestListItem → Type 0) (i : RequestListItem) (l : List RequestListItem)
    → P i
    → All P l
    → All P (insert_by_date i l)
unfolding insert_by_date
All-insert_by_date P i [] p a = (p, tt)
All-insert_by_date P i (j ∷ l) p a = elim (Bool-cases (leb i.date j.date)) [
  | inl e ↦ rw e (p, a)
  | inr e ↦ rw e (a.0, All-insert_by_date P i l p a.1)
]

All-order_by_date :
    (P : RequestListItem → Type 0) (l : List RequestListItem) → All P l → All P (order_by_date l)
unfolding order_by_date
All-order_by_date P [] a = a
All-order_by_date P (i ∷ l) a = All-insert_by_date P i _ a.0 (All-order_by_date P l a.1)

All-later :
    (m n : ℕ) (l : List RequestListItem) → m ≤ n → All (λ j. n ≤ j.date) l → All (λ j. m ≤ j.date) l
All-later m n [] le a = tt
All-later m n (i ∷ l) le a = (omega arith, All-later m n l le a.1)

Ordered-insert_by_date :
    (i : RequestListItem) (l : List RequestListItem) → Ordered l → Ordered (insert_by_date i l)
unfolding insert_by_date
Ordered-insert_by_date i [] o = (tt, tt)
Ordered-insert_by_date i (j ∷ l) o = elim (Bool-cases (leb i.date j.date)) [
  | inl e ↦ rw e ((ground arith, All-later i.date j.date l (ground arith) o.0), o)
  | inr e ↦ rw e (
    All-insert_by_date (λ x. j.date ≤ x.date) i l (ground arith) o.0,
    Ordered-insert_by_date i l o.1,
  )
]

Ordered-order_by_date : (l : List RequestListItem) → Ordered (order_by_date l)
unfolding order_by_date
Ordered-order_by_date [] = tt
Ordered-order_by_date (i ∷ l) = Ordered-insert_by_date i _ (Ordered-order_by_date l)

Has-insert_self : (i : RequestListItem) (l : List RequestListItem) → Has i (insert_by_date i l)
unfolding insert_by_date
Has-insert_self i [] = here refl
Has-insert_self i (j ∷ l) = elim (Bool-cases (leb i.date j.date)) [
  | inl e ↦ rw e (here refl)
  | inr e ↦ rw e (there (Has-insert_self i l))
]

Has-insert_by_date :
    (a i : RequestListItem) (l : List RequestListItem) → Has a l → Has a (insert_by_date i l)
unfolding insert_by_date
Has-insert_by_date a i [] h = elim h [ ]
Has-insert_by_date a i (j ∷ l) (here q) = elim (Bool-cases (leb i.date j.date)) [
  | inl e ↦ rw e (there (here q))
  | inr e ↦ rw e (here q)
]
Has-insert_by_date a i (j ∷ l) (there h) = elim (Bool-cases (leb i.date j.date)) [
  | inl e ↦ rw e (there (there h))
  | inr e ↦ rw e (there (Has-insert_by_date a i l h))
]

Has-order_by_date :
    (a : RequestListItem) (l : List RequestListItem) → Has a l → Has a (order_by_date l)
unfolding order_by_date
Has-order_by_date a [] h = elim h [ ]
Has-order_by_date a (i ∷ l) (here e) = rw e (Has-insert_self a _)
Has-order_by_date a (i ∷ l) (there h) = Has-insert_by_date a i _ (Has-order_by_date a l h)

Has-listed :
    (p : RequestRow → Bool) (k : Text) (t : Requests) (r : RequestRow)
    → find k t ≡ some r
    → p r ≡ true
    → Has (item_of r) (map item_of (select p t))
unfolding select Keyed.find
Has-listed p k [] r e h = cc
Has-listed p k (x ∷ t) r e h = elim (Bool-cases (same x.state k)) [
  | inl q ↦
      let found : x ≡ r = ground arith in
      let passes : p x ≡ true = rw found h in rw passes (here (ap item_of found))
  | inr q ↦ elim (Bool-cases (p x)) [
    | inl e' ↦ rw e' (there (Has-listed p k t r (ground arith) h))
    | inr e' ↦ rw e' (Has-listed p k t r (ground arith) h)
  ]
]

-- A row that ListPending's WHERE lets through, once the overdue rows have been expired.
Shown-row :
    (now : ℕ) (user : Text) (r : RequestRow)
    → let r' = if is_overdue (unix now) r then set_status expired (unix now) r else r in
      is_listed user r' ≡ true → Shown now user (item_of r')
Shown-row now user r e = elim (Bool-cases (is_overdue (unix now) r)) [
  | inl q ↦ absurd (unlisted (rw q at e))
  | inr q ↦ rw q (live (rw q at e))
]
  where
    unlisted : is_listed user (set_status expired (unix now) r) ≡ true → ⊥
    unlisted h = cc

    live : is_listed user r ≡ true → Shown now user (item_of r)
    live h = record {
      waits = is_pending→eq r.status (ground arith);
      visible = ground (arith, same_iff r.user_id user);
      in_time = ground arith;
    }

Shown-listed :
    (now : ℕ) (user : Text) (t : Requests)
    → All (Shown now user) (
        map item_of (
          select
            (is_listed user)
            (update (is_overdue (unix now)) (set_status expired (unix now)) t)))
unfolding select update
Shown-listed now user [] = tt
Shown-listed now user (r ∷ t) =
    let r' = if is_overdue (unix now) r then set_status expired (unix now) r else r in
    elim (Bool-cases (is_listed user r')) [
      | inl e ↦ rw e (Shown-row now user r e, Shown-listed now user t)
      | inr e ↦ rw e (Shown-listed now user t)
    ]

-- When both its statements run, ListPending answers with items in the order of their creation,
-- each of them pending, visible to the user and not past its deadline.
pub list_pending_sound :
    (now : ℕ) (user : Text) (t : Requests)
    → (l : List RequestListItem) × ((list_pending up up now user t).0 ≡ ok l)
      × Ordered l
      × All (Shown now user) l
unfolding list_pending expire_pending
list_pending_sound now user t =
    (_, refl, Ordered-order_by_date _, All-order_by_date _ _ (Shown-listed now user t))

-- When both its statements run, ListPending leaves out no pending request that the user may see
-- and whose deadline has not passed.
pub list_pending_complete :
    (now : ℕ) (user k : Text) (t : Requests) (r : RequestRow)
    → find k t ≡ some r
    → Shown now user (item_of r)
    → (l : List RequestListItem) × ((list_pending up up now user t).0 ≡ ok l) × Has (item_of r) l
unfolding list_pending expire_pending
list_pending_complete now user k t r e shown = (
  _,
  refl,
  Has-order_by_date _ _
      (Has-listed (is_listed user) k _ r (find-expire_pending k t now ∙ rw e still_live) listed),
)
  where
    still_live : adjust (is_overdue (unix now)) (set_status expired (unix now)) (some r) ≡ some r
    still_live = ground arith

    listed : is_listed user r ≡ true
    listed = ground (arith, same_iff r.user_id user, shown.visible, shown.waits)
