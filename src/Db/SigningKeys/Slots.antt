-- ===== src/Db/SigningKeys/Slots.antt =====
-- Both unique indexes of the table hold after every statement, and what each statement does to the
-- key in a slot.
use revaulter.Base.{
  map, if_cases, option_cases, ℕ, Text, same, same_iff, text_eq, ◌≡◌, ◌≢◌, refl, inl, inr, Bool,
  true, false, ◌&&◌, none, some, List, [], ◌∷◌, arith, Option-cases, Bool-cases,
}
use revaulter.Sql.{first, Conn, up, down, select, update}
use revaulter.Sql.Keyed
use revaulter.Time.{unix}
use revaulter.Db.SigningKeys.{
  or_not_found, set_proof, lacks_proof, driver, SigningKey, SigningKeys, InsertSigningKeyInput,
  Result, err, Slot, slot_eq, same_slot, same_slot_iff, id_of, slot_of, find_id, find_slot,
  IsIndexed, slot_of_input, row_of, insert_row, create, is_replaceable, replace, replace_row,
  auto_store_unpublished, is_owned, delete_key, set_published, store_publication_proof,
}

insert_row-IsIndexed :
    (r : SigningKey) (t : SigningKeys)
    → IsIndexed t
    → find_slot (slot_of r) t ≡ none
    → IsIndexed (insert_row r t).1
unfolding insert_row
insert_row-IsIndexed r t v free = elim (Option-cases (find_id r.id t)) [
  | inl e ↦
      rw (e, insert_row)
        (record {
          ids = Keyed.Distinct-append id_of t r e v.ids;
          slots = Keyed.Distinct-append slot_of t r free v.slots;
        })
  | inr (x, e) ↦ rw (e, insert_row) v
]

-- A row with an id is a row in its slot.
slot_of_found :
    (id : Text) (t : SigningKeys) (r : SigningKey)
    → find_id id t ≡ some r
    → find_slot (slot_of r) t ≢ none
unfolding Keyed.find
slot_of_found id [] r e = cc
slot_of_found id (x ∷ t) r e =
    ground (arith, slot_of_found id t r, same_slot_iff (slot_of x) (slot_of r))

abbrev pub in_slot : Slot → SigningKey → Bool
in_slot s k = same_slot (slot_of k) s && true

-- A statement on an empty slot changes nothing.
update_absent :
    (s : Slot) (f : SigningKey → SigningKey) (t : SigningKeys)
    → find_slot s t ≡ none
    → update (in_slot s) f t ≡ t
unfolding update Keyed.find
update_absent s f [] e = refl
update_absent s f (x ∷ t) e = ground (arith, update_absent s f t)

-- Setting the id of a slot's row keeps the ids distinct if no other slot has the new one.
module _ (now : ℕ) (i : InsertSigningKeyInput) where
  find-replace_ne :
      (id : Text) (t : SigningKeys)
      → find_id id t ≡ none
      → same i.id id ≡ false
      → find_id id (update (in_slot (slot_of_input i)) (replace now i) t) ≡ none
  unfolding update Keyed.find
  find-replace_ne id [] e ne = refl
  find-replace_ne id (x ∷ t) e ne = ground (arith, find-replace_ne id t)

  -- The new id is free below a row that holds the slot …
  id_free :
      (x : SigningKey) (t : SigningKeys)
      → IsIndexed (x ∷ t)
      → ((r : SigningKey) → find_id i.id (x ∷ t) ≡ some r → slot_of r ≡ slot_of_input i)
      → slot_of x ≡ slot_of_input i
      → find_id i.id t ≡ none
  unfolding Keyed.find
  id_free x t v mine e = elim (Option-cases (find_id i.id t)) [
    | inl q ↦ q
    | inr (r, q) ↦
        ground (arith, mine r, slot_of_found i.id t r q, v.ids.0, v.slots.0, same_iff x.id i.id)
  ]

  -- … and a row of another slot does not have it.
  id_other :
      (x : SigningKey) (t : SigningKeys)
      → ((r : SigningKey) → find_id i.id (x ∷ t) ≡ some r → slot_of r ≡ slot_of_input i)
      → same_slot (slot_of x) (slot_of_input i) ≡ false
      → same x.id i.id ≡ false
  unfolding Keyed.find
  id_other x t mine miss = elim (Bool-cases (same x.id i.id)) [
    | inl q ↦ ground (arith, mine x, same_slot_iff (slot_of x) (slot_of_input i))
    | inr q ↦ q
  ]

  replace-ids :
      (t : SigningKeys)
      → IsIndexed t
      → ((r : SigningKey) → find_id i.id t ≡ some r → slot_of r ≡ slot_of_input i)
      → Keyed.Distinct id_of (update (in_slot (slot_of_input i)) (replace now i) t)
  unfolding update Keyed.find
  replace-ids [] v mine = tt
  replace-ids (x ∷ t) v mine = elim (Bool-cases (same_slot (slot_of x) (slot_of_input i))) [
    | inl hit ↦
        let e = (same_slot_iff (slot_of x) (slot_of_input i)).0 hit in
        let absent : find_slot (slot_of_input i) t ≡ none = rw (← e) v.slots.0 in
        rw (hit, update_absent (slot_of_input i) (replace now i) t absent)
          (id_free x t v mine e, v.ids.1)
    | inr miss ↦
        let other = id_other x t mine miss in
        rw miss (
          find-replace_ne x.id t v.ids.0 (ground (arith, same_iff i.id x.id, same_iff x.id i.id)),
          replace-ids t (record { ids = v.ids.1; slots = v.slots.1 }) (λ r e. mine r (rw other e)),
        )
  ]

-- A statement that changes the keys of the table.
pub data Statement : Type 0 where
  creates : ℕ → InsertSigningKeyInput → Statement
  auto_stores : ℕ → InsertSigningKeyInput → Statement
  deletes : Text → Text → Statement
  publishes : ℕ → Text → Text → Bool → Statement
  proves : ℕ → Text → Text → Text → Text → Text → Statement

unfoldable pub step : Conn × Statement → SigningKeys → SigningKeys
step (c, creates now i) t = (create c now i t).1
step (c, auto_stores now i) t = (auto_store_unpublished c now i t).1
step (c, deletes user id) t = (delete_key c user id t).1
step (c, publishes now user id b) t = (set_published c now user id b t).1
step (c, proves now user id payload es ml) t =
    (store_publication_proof c now user id payload es ml t).1

unfoldable pub run : List (Conn × Statement) → SigningKeys → SigningKeys
run [] t = t
run (h ∷ hs) t = run hs (step h t)

update-IsIndexed :
    (p : SigningKey → Bool) (f : SigningKey → SigningKey) (t : SigningKeys)
    → ((k : SigningKey) → (f k).id ≡ k.id)
    → ((k : SigningKey) → slot_of (f k) ≡ slot_of k)
    → IsIndexed t
    → IsIndexed (update p f t)
update-IsIndexed p f t keeps_id keeps_slot v = record {
  ids = Keyed.Distinct-update id_of p f keeps_id t v.ids;
  slots = Keyed.Distinct-update slot_of p f keeps_slot t v.slots;
}

replace_row-IsIndexed :
    (now : ℕ) (i : InsertSigningKeyInput) (old : SigningKey) (t : SigningKeys)
    → IsIndexed t
    → IsIndexed (replace_row now i old t).1
unfolding replace_row
replace_row-IsIndexed now i old t v =
    if_cases P (is_replaceable old)
      (λ _.
        option_cases P (find_id i.id t) (λ e. replaced (λ r q. cc))
          (λ x e.
            if_cases P (same_slot (slot_of x) (slot_of_input i))
              (λ hit. replaced (λ r q. ground (arith, same_slot_iff (slot_of x) (slot_of_input i))))
              (λ _. v)))
      (λ _. v)
  where
    P : Result SigningKey × SigningKeys → Type 0
    P m = IsIndexed m.1

    replaced :
        ((r : SigningKey) → find_id i.id t ≡ some r → slot_of r ≡ slot_of_input i)
        → IsIndexed (update (in_slot (slot_of_input i)) (replace now i) t)
    replaced mine = record {
      ids = replace-ids now i t v mine;
      slots = Keyed.Distinct-update slot_of _ _ (λ k. refl) t v.slots;
    }

auto_store-IsIndexed :
    (c : Conn) (now : ℕ) (i : InsertSigningKeyInput) (t : SigningKeys)
    → IsIndexed t
    → IsIndexed (auto_store_unpublished c now i t).1
unfolding auto_store_unpublished
auto_store-IsIndexed c now i t v =
    if_cases P i.published (λ _. v) (λ _. if_cases P _ (λ _. v) (λ _. stored c))
  where
    P : Result SigningKey × SigningKeys → Type 0
    P m = IsIndexed m.1

    stored :
        (c : Conn)
        → P (elim c [
          | down ↦ (err driver, t)
          | up ↦ elim (find_slot (slot_of_input i) t) [
            | none ↦ insert_row (row_of (unix now) i) t
            | some old ↦ replace_row (unix now) i old t
          ]
        ])
    stored down = v
    stored up =
        option_cases P (find_slot (slot_of_input i) t)
          (λ e. insert_row-IsIndexed (row_of (unix now) i) t v e)
          (λ old e. replace_row-IsIndexed (unix now) i old t v)

pub step-IsIndexed : (h : Conn × Statement) (t : SigningKeys) → IsIndexed t → IsIndexed (step h t)
unfolding step create delete_key set_published store_publication_proof
step-IsIndexed (down, creates now i) t v = v
step-IsIndexed (up, creates now i) t v =
    option_cases (λ (m : Result SigningKey × SigningKeys). IsIndexed m.1)
      (find_slot (slot_of_input i) t) (λ e. insert_row-IsIndexed (row_of (unix now) i) t v e)
      (λ x e. v)
step-IsIndexed (c, auto_stores now i) t v = auto_store-IsIndexed c now i t v
step-IsIndexed (down, deletes user id) t v = v
step-IsIndexed (up, deletes user id) t v = record {
  ids = Keyed.Distinct-delete id_of _ t v.ids;
  slots = Keyed.Distinct-delete slot_of _ t v.slots;
}
step-IsIndexed (down, publishes now user id b) t v = v
step-IsIndexed (up, publishes now user id b) t v = update-IsIndexed _ _ t (λ k. refl) (λ k. refl) v
step-IsIndexed (c, proves now user id payload es ml) t v =
    elim (Bool-cases (lacks_proof payload es ml)) [
      | inl e ↦ rw (e, step, store_publication_proof) v
      | inr e ↦ rw (e, step, store_publication_proof) (proved c)
    ]
  where
    P : Result SigningKey × SigningKeys → Type 0
    P m = IsIndexed m.1

    proved :
        (c : Conn)
        → P (elim c [
          | down ↦ (err driver, t)
          | up ↦ (
            or_not_found
                (first (map (set_proof (unix now) payload es ml) (select (is_owned user id) t))),
            update (is_owned user id) (set_proof (unix now) payload es ml) t,
          )
        ])
    proved down = v
    proved up = update-IsIndexed _ _ t (λ k. refl) (λ k. refl) v

-- Every history of statements, failing or not, keeps the ids distinct and one key to a slot.
pub run-IsIndexed :
    (hs : List (Conn × Statement)) (t : SigningKeys) → IsIndexed t → IsIndexed (run hs t)
unfolding run
run-IsIndexed [] t v = v
run-IsIndexed (h ∷ hs) t v = run-IsIndexed hs (step h t) (step-IsIndexed h t v)
