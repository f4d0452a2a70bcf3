-- ===== src/Db/SigningKeys/Rows.antt =====
-- What the statements of SigningKeyStore keep that holds of every key (internal/db/signing_keys.go).
use revaulter.Base.{
  ℕ, Text, is_empty, ◌≡◌, inl, inr, Bool, true, false, ◌&&◌, none, some, All, arith, Bool-cases,
  if_cases, option_cases,
}
use revaulter.Sql.{Conn, up, down, update}
use revaulter.Sql.Every.{All-append, All-delete, All-update, All-map, All-both, all_every, all_same}
use revaulter.Time.{unix}
use revaulter.Db.SigningKeys.{
  SigningKey, SigningKeys, InsertSigningKeyInput, IsIndexed, Result, ok, err, driver, slot_eq,
  same_slot, slot_of, find_id, find_slot, slot_of_input, row_of, insert_row, is_replaceable,
  replace, replace_row, create, auto_store_unpublished, is_owned, delete_key, set_flag,
  set_published, set_proof, lacks_proof, store_publication_proof, has_publication_proof,
}

module _ (P : SigningKey → Type 0) where
  abbrev Keeps : Result SigningKey × SigningKeys → Type 0
  Keeps m = All P m.1

  insert_all : (r : SigningKey) (t : SigningKeys) → All P t → P r → All P (insert_row r t).1
  unfolding insert_row
  insert_all r t a p = option_cases Keeps (find_id r.id t) (λ e. All-append P t r a p) (λ x e. a)

  pub create_all :
      (c : Conn) (now : ℕ) (i : InsertSigningKeyInput) (t : SigningKeys)
      → All P t
      → P (row_of (unix now) i)
      → All P (create c now i t).1
  unfolding create
  create_all down now i t a p = a
  create_all up now i t a p =
      option_cases Keeps (find_slot (slot_of_input i) t) (λ e. insert_all _ t a p) (λ x e. a)

  pub delete_all :
      (c : Conn) (user id : Text) (t : SigningKeys) → All P t → All P (delete_key c user id t).1
  unfolding delete_key
  delete_all down user id t a = a
  delete_all up user id t a = All-delete P (is_owned user id) t a

  pub flag_all :
      (c : Conn) (now : ℕ) (user id : Text) (b : Bool) (t : SigningKeys)
      → All P t
      → All (λ k. is_owned user id k ≡ true → P (set_flag (unix now) b k)) t
      → All P (set_published c now user id b t).1
  unfolding set_published
  flag_all down now user id b t a h = a
  flag_all up now user id b t a h =
      All-update P (is_owned user id) (set_flag (unix now) b) t
        (All-map _ t (λ k x. (x.0, λ e. x.1)) (All-both _ _ t h a))

  pub proof_all :
      (c : Conn) (now : ℕ) (user id payload es ml : Text) (t : SigningKeys)
      → All P t
      → (lacks_proof payload es ml ≡ false
          → All (λ k. is_owned user id k ≡ true → P (set_proof (unix now) payload es ml k)) t)
      → All P (store_publication_proof c now user id payload es ml t).1
  unfolding store_publication_proof
  proof_all down now user id payload es ml t a h =
      if_cases Keeps (lacks_proof payload es ml) (λ e. a) (λ e. a)
  proof_all up now user id payload es ml t a h =
      if_cases Keeps (lacks_proof payload es ml) (λ e. a)
        (λ e.
          All-update P (is_owned user id) (set_proof (unix now) payload es ml) t
            (All-map _ t (λ k x. (x.0, λ n. x.1)) (All-both _ _ t (h e) a)))

  -- AutoStoreUnpublished fills a slot with a key that is unpublished and has no proof, or replaces one.
  pub auto_store_all :
      (c : Conn) (now : ℕ) (i : InsertSigningKeyInput) (t : SigningKeys)
      → IsIndexed t
      → All P t
      → (i.published ≡ false → is_empty i.publication_payload ≡ true → P (row_of (unix now) i))
      → ((k : SigningKey) → P k → is_replaceable k ≡ true → P (replace (unix now) i k))
      → All P (auto_store_unpublished c now i t).1
  unfolding auto_store_unpublished replace_row
  auto_store_all c now i t v a fresh again =
      if_cases Keeps i.published (λ e. a)
        (λ e. if_cases Keeps _ (λ e'. a) (λ e'. stored c e (ground arith)))
    where
      replaced :
          (old : SigningKey)
          → find_slot (slot_of_input i) t ≡ some old
          → is_replaceable old ≡ true
          → All P (
              update
                (λ k. same_slot (slot_of k) (slot_of_input i) && true)
                (replace (unix now) i)
                t)
      replaced old f open_row = All-update P _ _ t (
          All-map _ t (λ k x. (λ e. again k x.1 (rw (x.0 (ground arith)) open_row), λ n. x.1))
            (All-both _ _ t (all_same slot_of (slot_of_input i) t old v.slots f) a))

      stored :
          (c : Conn)
          → i.published ≡ false
          → is_empty i.publication_payload ≡ true
          → Keeps (elim c [
            | down ↦ (err driver, t)
            | up ↦ elim (find_slot (slot_of_input i) t) [
              | none ↦ insert_row (row_of (unix now) i) t
              | some old ↦ replace_row (unix now) i old t
            ]
          ])
      stored down e n = a
      stored up e n =
          option_cases Keeps (find_slot (slot_of_input i) t) (λ f. insert_all _ t a (fresh e n))
            (λ old f.
              if_cases Keeps (is_replaceable old)
                (λ open_row.
                  option_cases Keeps (find_id i.id t) (λ g. replaced old f open_row)
                    (λ r g.
                      if_cases Keeps (same_slot (slot_of r) (slot_of_input i))
                        (λ m. replaced old f open_row) (λ m. a)))
                (λ locked. a))

-- Where StorePublicationProof reports a key, the keys that it names have a proof.
pub proof_marks :
    (c : Conn) (now : ℕ) (user id payload es ml : Text) (t : SigningKeys) (x : SigningKey)
    → (store_publication_proof c now user id payload es ml t).0 ≡ ok x
    → All
        (λ k. is_owned user id k ≡ true → has_publication_proof k ≡ true)
        (store_publication_proof c now user id payload es ml t).1
unfolding store_publication_proof has_publication_proof
proof_marks down now user id payload es ml t x h = absurd (ground arith)
proof_marks up now user id payload es ml t x h = elim (Bool-cases (lacks_proof payload es ml)) [
  | inl e ↦ absurd (ground arith)
  | inr e ↦ rw e (
      All-update _ (is_owned user id) (set_proof (unix now) payload es ml) t
        (all_every _ t (λ k. (λ q o. ground arith, λ q o. absurd (ground arith)))))
]
