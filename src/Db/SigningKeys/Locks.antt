-- ===== src/Db/SigningKeys/Locks.antt =====
-- AutoStoreUnpublished, which runs after every sign: it may fill a slot or replace a key that the
-- user never published or proved, and nothing else.
use revaulter.Base.{
  ℕ, text_eq, is_empty, ◌≡◌, refl, ◌∙◌, ◌⊎◌, inl, inr, true, false, none, some, List, [], ◌∷◌,
  arith, Bool-cases, if_cases, option_cases,
}
use revaulter.Sql.{Conn, up, down, update}
use revaulter.Sql.Keyed
use revaulter.Time.{unix}
use revaulter.Db.SigningKeys.{
  SigningKey, SigningKeys, InsertSigningKeyInput, driver, Result, ok, err, Slot, slot_eq, same_slot,
  same_slot_iff, slot_of, find_id, find_slot, slot_of_input, row_of, insert_row, is_replaceable,
  replace, replace_row, auto_store_unpublished,
}
use revaulter.Db.SigningKeys.Slots.{in_slot}

-- The key was published or carries a proof: an explicit decision of the user.
abbrev pub IsLocked : SigningKey → Type 0
IsLocked k = (k.published ≡ true) ⊎ (is_empty k.publication_payload ≡ false)

module _ (s : Slot) (k : SigningKey) (t : SigningKeys) where
  abbrev Keeps : Result SigningKey × SigningKeys → Type 0
  Keeps m = find_slot s m.1 ≡ some k

  insert-Keeps :
      (r : SigningKey)
      → find_slot s t ≡ some k
      → find_slot (slot_of r) t ≡ none
      → Keeps (insert_row r t)
  unfolding insert_row
  insert-Keeps r e free =
      option_cases Keeps (find_id r.id t)
        (λ _.
          Keyed.find-append_fresh slot_of s t r free ∙ ground (arith, same_slot_iff (slot_of r) s))
        (λ _ _. e)

  replace-Keeps :
      (now : ℕ) (i : InsertSigningKeyInput) (old : SigningKey)
      → IsLocked k
      → find_slot s t ≡ some k
      → find_slot (slot_of_input i) t ≡ some old
      → Keeps (replace_row now i old t)
  unfolding replace_row
  replace-Keeps now i old locked e f =
      if_cases Keeps (is_replaceable old)
        (λ open_row.
          option_cases Keeps (find_id i.id t) (λ _. replaced open_row)
            (λ r _.
              if_cases Keeps (same_slot (slot_of r) (slot_of_input i)) (λ _. replaced open_row)
                (λ _. e)))
        (λ _. e)
    where
      replaced :
          is_replaceable old ≡ true
          → find_slot s (update (in_slot (slot_of_input i)) (replace now i) t) ≡ some k
      replaced open_row =
          Keyed.find-update_at slot_of (λ x. true) (replace now i) (λ x. refl) (slot_of_input i) s t
          ∙ ground (arith, same_slot_iff (slot_of_input i) s)

  auto_store-Keeps :
      (c : Conn) (now : ℕ) (i : InsertSigningKeyInput)
      → IsLocked k
      → find_slot s t ≡ some k
      → Keeps (auto_store_unpublished c now i t)
  unfolding auto_store_unpublished
  auto_store-Keeps c now i locked e =
      if_cases Keeps i.published (λ _. e) (λ _. if_cases Keeps _ (λ _. e) (λ _. stored c))
    where
      stored :
          (c : Conn)
          → Keeps (elim c [
            | down ↦ (err driver, t)
            | up ↦ elim (find_slot (slot_of_input i) t) [
              | none ↦ insert_row (row_of (unix now) i) t
              | some old ↦ replace_row (unix now) i old t
            ]
          ])
      stored down = e
      stored up =
          option_cases Keeps (find_slot (slot_of_input i) t)
            (λ free. insert-Keeps (row_of (unix now) i) e free)
            (λ old f. replace-Keeps (unix now) i old locked e f)

-- The calls of AutoStoreUnpublished that the confirmed signs of all users make.
pub auto_store_all : List (Conn × ℕ × InsertSigningKeyInput) → SigningKeys → SigningKeys
auto_store_all [] t = t
auto_store_all ((c, now, i) ∷ cs) t = auto_store_all cs (auto_store_unpublished c now i t).1

-- Once a key has been published or proved, no sequence of automatic stores changes its slot.
pub auto_store_locked :
    (cs : List (Conn × ℕ × InsertSigningKeyInput)) (s : Slot) (t : SigningKeys) (k : SigningKey)
    → find_slot s t ≡ some k
    → IsLocked k
    → find_slot s (auto_store_all cs t) ≡ some k
unfolding auto_store_all
auto_store_locked [] s t k e locked = e
auto_store_locked ((c, now, i) ∷ cs) s t k e locked =
    auto_store_locked cs s (auto_store_unpublished c now i t).1 k
      (auto_store-Keeps s k t c now i locked e) locked

replaceable : (k : SigningKey) → ¬ IsLocked k → is_replaceable k ≡ true
replaceable k open_row = elim (Bool-cases k.published) [
  | inl e ↦ absurd (open_row (inl e))
  | inr e ↦ elim (Bool-cases (is_empty k.publication_payload)) [
    | inl q ↦ rw (e, q)
    | inr q ↦ absurd (open_row (inr q))
  ]
]

-- A key that its user neither published nor proved does not claim the slot: the next automatic
-- store replaces its id, JWK and PEM, and keeps when it was created. (The new id is that of no
-- other row.)
pub auto_store_replaces :
    (now : ℕ) (i : InsertSigningKeyInput) (t : SigningKeys) (old : SigningKey)
    → i.published ≡ false
    → i.publication_payload ≡ []
    → i.publication_signature_es384 ≡ []
    → i.publication_signature_mldsa87 ≡ []
    → find_slot (slot_of_input i) t ≡ some old
    → ¬ IsLocked old
    → find_id i.id t ≡ none
    → let (answer, t') = auto_store_unpublished up now i t in
      let new = record old { id = i.id; jwk = i.jwk; pem = i.pem; updated_at = unix now } in
      (answer ≡ ok new) × (find_slot (slot_of_input i) t' ≡ some new)
unfolding auto_store_unpublished replace_row
auto_store_replaces now i t old e₁ e₂ e₃ e₄ f open_row free =
    let opened = replaceable old open_row in
    let stored =
      Keyed.find-update_at slot_of (λ x. true) (replace (unix now) i) (λ x. refl) (slot_of_input i)
        (slot_of_input i) t in
    rw (e₁, e₂, e₃, e₄, auto_store_unpublished)
      (rw (f, auto_store_unpublished)
        (rw (opened, replace_row)
          (rw (free, replace_row)
            (refl, stored ∙ ground (arith, same_slot_iff (slot_of_input i) (slot_of_input i))))))
