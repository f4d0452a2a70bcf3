-- ===== src/Db/SigningKeys.antt =====
-- internal/db/signing_keys.go: the table v2_published_signing_keys and SigningKeyStore.
mod Types
pub mod Slots
pub mod Locks
pub mod Access
pub mod Rows
mod Tests
unfoldable pub use Types.{has_publication_proof}
pub use Types.*
use revaulter.Base.{
  ℕ, Text, same, Eq, text_eq, is_empty, ◌≡◌, refl, ap, ◌↔◌, Bool, true, false, ◌&&◌, ◌||◌, not,
  Option, none, some, List, [], ◌∷◌, ◌++◌, map, arith, if◌then◌else◌, same_iff,
}
use revaulter.Sql.{Conn, up, down, select, update, delete, first}
use revaulter.Sql.Keyed
use revaulter.Time.{unix}

-- A plain insert, once the slot is known to be free: the primary key may still be taken.
insert_row : SigningKey → SigningKeys → Result SigningKey × SigningKeys
insert_row r t = elim (find_id r.id t) [ none ↦ (ok r, t ++ r ∷ []) | some _ ↦ (err constraint, t) ]

-- Create: ON CONFLICT (user_id, algorithm, key_label) DO NOTHING returns no row.
unfoldable pub create :
    Conn → ℕ → InsertSigningKeyInput → SigningKeys → Result SigningKey × SigningKeys
unfolding insert_row
create down now i t = (err driver, t)
create up now i t = elim (find_slot (slot_of_input i) t) [
  | none ↦ insert_row (row_of (unix now) i) t
  | some _ ↦ (err already_exists, t)
]

-- The WHERE of the DO UPDATE.
abbrev pub is_replaceable : SigningKey → Bool
is_replaceable k = not k.published && is_empty k.publication_payload

abbrev pub replace : ℕ → InsertSigningKeyInput → SigningKey → SigningKey
replace now i k = record k { id = i.id; jwk = i.jwk; pem = i.pem; updated_at = now }

-- The DO UPDATE on the row that holds the slot; setting `id` meets the primary key again.
replace_row : ℕ → InsertSigningKeyInput → SigningKey → SigningKeys → Result SigningKey × SigningKeys
replace_row now i old t =
    let s = slot_of_input i in
    let done : Result SigningKey × SigningKeys =
      (ok (replace now i old), update (λ k. same_slot (slot_of k) s && true) (replace now i) t) in
    if is_replaceable old
    then elim (find_id i.id t) [
      | none ↦ done
      | some r ↦ if same_slot (slot_of r) s then done else (err constraint, t)
    ]
    else (err already_exists, t)

-- AutoStoreUnpublished
unfoldable pub auto_store_unpublished :
    Conn → ℕ → InsertSigningKeyInput → SigningKeys → Result SigningKey × SigningKeys
unfolding insert_row replace_row
auto_store_unpublished c now i t =
    if i.published
    then (err marked_published, t)
    else if not (is_empty i.publication_payload)
        || (not (is_empty i.publication_signature_es384)
            || not (is_empty i.publication_signature_mldsa87))
    then (err carries_proof, t)
    else elim c [
      | down ↦ (err driver, t)
      | up ↦ elim (find_slot (slot_of_input i) t) [
        | none ↦ insert_row (row_of (unix now) i) t
        | some old ↦ replace_row (unix now) i old t
      ]
    ]

-- GetByUserAndLabel
unfoldable pub get_by_user_and_label :
    Conn → Text → Text → Text → SigningKeys → Result (Option SigningKey)
get_by_user_and_label down user alg label t = err driver
get_by_user_and_label up user alg label t =
    let s : Slot = record { user = user; alg = alg; label = label } in
    ok (first (select (λ k. same_slot (slot_of k) s && true) t))

-- GetByID
unfoldable pub get_by_id : Conn → Text → SigningKeys → Result (Option SigningKey)
get_by_id down id t = err driver
get_by_id up id t = ok (first (select (λ k. same k.id id && true) t))

-- What GetPublishedByID and GetForUser make of the row.
abbrev pub only_if : (SigningKey → Bool) → Result (Option SigningKey) → Result (Option SigningKey)
only_if p (err e) = err e
only_if p (ok none) = ok none
only_if p (ok (some k)) = if p k then ok (some k) else ok none

-- GetPublishedByID
unfoldable pub get_published_by_id : Conn → Text → SigningKeys → Result (Option SigningKey)
unfolding get_by_id has_publication_proof
get_published_by_id c id t =
    only_if (λ k. not (not k.published || not (has_publication_proof k))) (get_by_id c id t)

-- GetForUser
unfoldable pub get_for_user : Conn → Text → Text → SigningKeys → Result (Option SigningKey)
unfolding get_by_id
get_for_user c user id t = only_if (λ k. same k.user_id user) (get_by_id c id t)

-- The row that a statement with RETURNING reports, or ErrSigningKeyNotFound.
abbrev pub or_not_found : Option SigningKey → Result SigningKey
or_not_found none = err not_found
or_not_found (some k) = ok k

-- `WHERE user_id = $1 AND id = $2`
abbrev pub is_owned : Text → Text → SigningKey → Bool
is_owned user id k = same k.id id && same k.user_id user

-- Delete
unfoldable pub delete_key : Conn → Text → Text → SigningKeys → Result SigningKey × SigningKeys
delete_key down user id t = (err driver, t)
delete_key up user id t =
    (or_not_found (first (map (λ k. k) (select (is_owned user id) t))), delete (is_owned user id) t)

abbrev pub set_flag : ℕ → Bool → SigningKey → SigningKey
set_flag now published k = record k { published = published; updated_at = now }

-- SetPublished
unfoldable pub set_published :
    Conn → ℕ → Text → Text → Bool → SigningKeys → Result SigningKey × SigningKeys
set_published down now user id published t = (err driver, t)
set_published up now user id published t = (
  or_not_found (first (map (set_flag (unix now) published) (select (is_owned user id) t))),
  update (is_owned user id) (set_flag (unix now) published) t,
)

abbrev pub set_proof : ℕ → Text → Text → Text → SigningKey → SigningKey
set_proof now payload es ml k = record k {
  publication_payload = payload;
  publication_signature_es384 = es;
  publication_signature_mldsa87 = ml;
  updated_at = now;
}

abbrev pub lacks_proof : Text → Text → Text → Bool
lacks_proof payload es ml = is_empty payload || (is_empty es || is_empty ml)

-- StorePublicationProof
unfoldable pub store_publication_proof :
    Conn → ℕ → Text → Text → Text → Text → Text → SigningKeys → Result SigningKey × SigningKeys
store_publication_proof c now user id payload es ml t =
    if lacks_proof payload es ml then (err empty_proof, t) else elim c [
      | down ↦ (err driver, t)
      | up ↦ (
        or_not_found
            (first (map (set_proof (unix now) payload es ml) (select (is_owned user id) t))),
        update (is_owned user id) (set_proof (unix now) payload es ml) t,
      )
    ]
