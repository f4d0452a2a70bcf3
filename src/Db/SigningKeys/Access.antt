-- ===== src/Db/SigningKeys/Access.antt =====
-- Who sees a signing key, and who can change it.
use revaulter.Base.{
  nonempty_iff, ℕ, Text, same, same_iff, text_eq, ◌≡◌, ◌≢◌, ◌↔◌, refl, sym, ap, ◌∙◌, inl, inr, Bool,
  true, false, ◌||◌, not, Option, none, some, List, [], ◌∷◌, arith, Bool-cases, All, map, if_cases,
  option_cases,
}
use revaulter.Sql.{Conn, up, down, select, update, delete, adjust, drop_if, keep_if, first}
use revaulter.Sql.Keyed
use revaulter.Time.{unix}
use revaulter.Db.SigningKeys.{
  SigningKey, SigningKeys, InsertSigningKeyInput, driver, Result, ok, err, Slot, slot_eq, same_slot,
  id_of, slot_of, find_id, find_slot, IsIndexed, slot_of_input, row_of, insert_row, create,
  is_replaceable, replace, replace_row, auto_store_unpublished, is_owned, delete_key, set_published,
  store_publication_proof, get_by_id, get_published_by_id, get_for_user, only_if,
  has_publication_proof, lacks_proof, set_proof, set_flag, or_not_found,
}
use revaulter.Db.SigningKeys.Slots.{
  Statement, creates, auto_stores, deletes, publishes, proves, step, run, in_slot, step-IsIndexed,
}

by_id : (id : Text) (t : SigningKeys) → IsIndexed t → get_by_id up id t ≡ ok (find_id id t)
unfolding get_by_id
by_id id t v = ap ok (Keyed.first-select id_of (λ k. true) id t v.ids ∙ all (find_id id t))
  where
    all : (o : Option SigningKey) → keep_if (λ k. true) o ≡ o
    all none = refl
    all (some k) = refl

only_if_iff :
    (p : SigningKey → Bool) (o : Option SigningKey) (k : SigningKey)
    → (only_if p (ok o) ≡ ok (some k)) ↔ ((o ≡ some k) × (p k ≡ true))
only_if_iff p none k = (λ e. cc, λ e. cc)
only_if_iff p (some x) k = (λ e. ground arith, λ e. ground arith)

-- The public endpoint's lookup answers with a key exactly when the key is stored under that id,
-- its owner published it, and it carries all three parts of a publication proof.
pub get_published_by_id_exact :
    (id : Text) (t : SigningKeys) (k : SigningKey)
    → IsIndexed t
    → (get_published_by_id up id t ≡ ok (some k)) ↔ (
        (find_id id t ≡ some k)
        × (k.published ≡ true)
        × (k.publication_payload ≢ [])
        × (k.publication_signature_es384 ≢ [])
        × (k.publication_signature_mldsa87 ≢ []))
unfolding get_published_by_id has_publication_proof
get_published_by_id_exact id t k v = (
  λ e. shown ((only_if_iff is_public (find_id id t) k).0 (sym found ∙ e)),
  λ h.
      found
      ∙ (only_if_iff is_public (find_id id t) k).1 (
        h.0,
        ground (
          arith,
          nonempty_iff k.publication_payload,
          nonempty_iff k.publication_signature_es384,
          nonempty_iff k.publication_signature_mldsa87,
        ),
      ),
)
  where
    is_public : SigningKey → Bool
    is_public x = not (not x.published || not (has_publication_proof x))

    found : get_published_by_id up id t ≡ only_if is_public (ok (find_id id t))
    found = ap (only_if is_public) (by_id id t v)

    shown :
        (find_id id t ≡ some k) × (is_public k ≡ true)
        → (find_id id t ≡ some k)
          × (k.published ≡ true)
          × (k.publication_payload ≢ [])
          × (k.publication_signature_es384 ≢ [])
          × (k.publication_signature_mldsa87 ≢ [])
    shown h = (
      h.0,
      ground arith,
      (nonempty_iff k.publication_payload).0 (ground arith),
      (nonempty_iff k.publication_signature_es384).0 (ground arith),
      (nonempty_iff k.publication_signature_mldsa87).0 (ground arith),
    )

-- GetForUser answers with a key exactly when it is stored under that id and is the user's own.
pub get_for_user_exact :
    (user id : Text) (t : SigningKeys) (k : SigningKey)
    → IsIndexed t
    → (get_for_user up user id t ≡ ok (some k)) ↔ ((find_id id t ≡ some k) × (k.user_id ≡ user))
unfolding get_for_user
get_for_user_exact user id t k v = (
  λ e.
      let h = (only_if_iff mine (find_id id t) k).0 (sym found ∙ e) in
      (h.0, (same_iff k.user_id user).0 h.1),
  λ h. found ∙ (only_if_iff mine (find_id id t) k).1 (h.0, (same_iff k.user_id user).1 h.1),
)
  where
    mine : SigningKey → Bool
    mine x = same x.user_id user

    found : get_for_user up user id t ≡ only_if mine (ok (find_id id t))
    found = ap (only_if mine) (by_id id t v)

-- The user on whose behalf a statement runs.
abbrev pub actor : Statement → Text
actor (creates now i) = i.user_id
actor (auto_stores now i) = i.user_id
actor (deletes user id) = user
actor (publishes now user id b) = user
actor (proves now user id payload es ml) = user

module _ (user : Text) (s : Slot) (t : SigningKeys) (foreign : same user s.user ≡ false) where
  insert_isolated :
      (r : SigningKey)
      → r.user_id ≡ user
      → find_slot (slot_of r) t ≡ none
      → find_slot s (insert_row r t).1 ≡ find_slot s t
  unfolding insert_row
  insert_isolated r mine free =
      option_cases (λ (m : Result SigningKey × SigningKeys). find_slot s m.1 ≡ find_slot s t)
        (find_id r.id t) (λ e. Keyed.find-append_fresh slot_of s t r free ∙ ground arith)
        (λ x e. refl)

  not_owned : (id : Text) (k : SigningKey) → find_slot s t ≡ some k → is_owned user id k ≡ false
  not_owned id k e =
      ground (arith, Keyed.find-key slot_of s t k e, same_iff k.user_id user, same_iff user s.user)

  update_isolated :
      (f : SigningKey → SigningKey) (id : Text)
      → ((k : SigningKey) → slot_of (f k) ≡ slot_of k)
      → find_slot s (update (is_owned user id) f t) ≡ find_slot s t
  update_isolated f id keeps =
      Keyed.find-update slot_of (is_owned user id) f keeps s t ∙ still (find_slot s t) refl
    where
      still : (o : Option SigningKey) → find_slot s t ≡ o → adjust (is_owned user id) f o ≡ o
      still none e = refl
      still (some k) e = rw (not_owned id k e)

  delete_isolated :
      (id : Text) → IsIndexed t → find_slot s (delete (is_owned user id) t) ≡ find_slot s t
  delete_isolated id v =
      Keyed.find-delete slot_of (is_owned user id) s t v.slots ∙ still (find_slot s t) refl
    where
      still : (o : Option SigningKey) → find_slot s t ≡ o → drop_if (is_owned user id) o ≡ o
      still none e = refl
      still (some k) e = rw (not_owned id k e)

module _ (s : Slot) (t : SigningKeys) where
  abbrev Untouched : Result SigningKey × SigningKeys → Type 0
  Untouched m = find_slot s m.1 ≡ find_slot s t

  replace_isolated :
      (now : ℕ) (i : InsertSigningKeyInput) (old : SigningKey)
      → same_slot (slot_of_input i) s ≡ false
      → Untouched (replace_row now i old t)
  unfolding replace_row
  replace_isolated now i old other =
      if_cases Untouched (is_replaceable old)
        (λ _.
          option_cases Untouched (find_id i.id t) (λ _. replaced)
            (λ r _.
              if_cases Untouched (same_slot (slot_of r) (slot_of_input i)) (λ _. replaced)
                (λ _. refl)))
        (λ _. refl)
    where
      replaced : find_slot s (update (in_slot (slot_of_input i)) (replace now i) t) ≡ find_slot s t
      replaced =
          Keyed.find-update_at slot_of (λ k. true) (replace now i) (λ k. refl) (slot_of_input i) s t
          ∙ rw other

  auto_store_isolated :
      (c : Conn) (now : ℕ) (i : InsertSigningKeyInput)
      → same i.user_id s.user ≡ false
      → Untouched (auto_store_unpublished c now i t)
  unfolding auto_store_unpublished
  auto_store_isolated c now i foreign =
      if_cases Untouched i.published (λ _. refl)
        (λ _. if_cases Untouched _ (λ _. refl) (λ _. stored c))
    where
      stored :
          (c : Conn)
          → Untouched (elim c [
            | down ↦ (err driver, t)
            | up ↦ elim (find_slot (slot_of_input i) t) [
              | none ↦ insert_row (row_of (unix now) i) t
              | some old ↦ replace_row (unix now) i old t
            ]
          ])
      stored down = refl
      stored up =
          option_cases Untouched (find_slot (slot_of_input i) t)
            (λ e. insert_isolated i.user_id s t foreign (row_of (unix now) i) refl e)
            (λ old e. replace_isolated (unix now) i old (ground arith))

step_isolated :
    (c : Conn) (x : Statement) (s : Slot) (t : SigningKeys)
    → IsIndexed t
    → same (actor x) s.user ≡ false
    → find_slot s (step (c, x) t) ≡ find_slot s t
unfolding step create delete_key set_published store_publication_proof
step_isolated down (creates now i) s t v foreign = refl
step_isolated up (creates now i) s t v foreign =
    option_cases (Untouched s t) (find_slot (slot_of_input i) t)
      (λ e. insert_isolated i.user_id s t foreign (row_of (unix now) i) refl e) (λ x e. refl)
step_isolated c (auto_stores now i) s t v foreign = auto_store_isolated s t c now i foreign
step_isolated down (deletes user id) s t v foreign = refl
step_isolated up (deletes user id) s t v foreign = delete_isolated user s t foreign id v
step_isolated down (publishes now user id b) s t v foreign = refl
step_isolated up (publishes now user id b) s t v foreign =
    update_isolated user s t foreign (set_flag (unix now) b) id (λ k. refl)
step_isolated c (proves now user id payload es ml) s t v foreign =
    elim (Bool-cases (lacks_proof payload es ml)) [
      | inl e ↦ rw (e, step, store_publication_proof)
      | inr e ↦ rw (e, step, store_publication_proof) (proved c)
    ]
  where
    proved :
        (c : Conn)
        → Untouched s t (elim c [
          | down ↦ (err driver, t)
          | up ↦ (
            or_not_found
                (first (map (set_proof (unix now) payload es ml) (select (is_owned user id) t))),
            update (is_owned user id) (set_proof (unix now) payload es ml) t,
          )
        ])
    proved down = refl
    proved up = update_isolated user s t foreign (set_proof (unix now) payload es ml) id (λ k. refl)

-- Whatever statements run on behalf of other users, in any order and failing or not, the key in
-- every slot of this user stays as it is.
pub run_isolated :
    (hs : List (Conn × Statement)) (s : Slot) (t : SigningKeys)
    → IsIndexed t
    → All (λ h. same (actor h.1) s.user ≡ false) hs
    → find_slot s (run hs t) ≡ find_slot s t
unfolding run
run_isolated [] s t v foreign = refl
run_isolated ((c, x) ∷ hs) s t v foreign =
    run_isolated hs s (step (c, x) t) (step-IsIndexed (c, x) t v) foreign.1
    ∙ step_isolated c x s t v foreign.0
