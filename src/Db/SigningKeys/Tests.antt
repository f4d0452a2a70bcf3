-- ===== src/Db/SigningKeys/Tests.antt =====
-- Runs of SigningKeyStore, and its theorems at concrete tables.
use revaulter.Base.{bytes, same, ◌≡◌, refl, inl, inr, true, false, some, List, [], ◌∷◌}
use revaulter.Sql.{Conn, up, down, select, first}
use revaulter.Sql.Keyed
use revaulter.Db.SigningKeys.{
  SigningKey, SigningKeys, InsertSigningKeyInput, ok, err, already_exists, carries_proof, not_found,
  find_slot, IsIndexed, slot_of_input, row_of, create, auto_store_unpublished, set_published,
}
use revaulter.Db.SigningKeys.Slots.{
  Statement, auto_stores, deletes, publishes, proves, run, run-IsIndexed,
}
use revaulter.Db.SigningKeys.Locks.{auto_store_all, auto_store_locked, auto_store_replaces}
use revaulter.Db.SigningKeys.Access.{run_isolated}

abbrev found_key : InsertSigningKeyInput
found_key = record {
  id = bytes "k1";
  user_id = bytes "alice";
  algorithm = bytes "ES256";
  key_label = bytes "disk";
  jwk = bytes "{}";
  pem = bytes "PEM";
  published = false;
  publication_payload = [];
  publication_signature_es384 = [];
  publication_signature_mldsa87 = [];
}

abbrev next_key : InsertSigningKeyInput
next_key = record found_key { id = bytes "k2"; pem = bytes "PEM2" }

abbrev stored : SigningKey
stored = row_of 1700000000 found_key

abbrev proven : SigningKey
proven = record stored {
  published = true;
  publication_payload = bytes "p";
  publication_signature_es384 = bytes "e";
  publication_signature_mldsa87 = bytes "m";
}

abbrev other : SigningKey
other = record stored { id = bytes "k3"; user_id = bytes "bob" }

abbrev open_table : SigningKeys
open_table = stored ∷ other ∷ []

abbrev locked_table : SigningKeys
locked_table = proven ∷ other ∷ []

open_table-IsIndexed : IsIndexed open_table
unfolding Keyed.find same
open_table-IsIndexed = record { ids = (refl, (refl, tt)); slots = (refl, (refl, tt)) }

locked_table-IsIndexed : IsIndexed locked_table
unfolding Keyed.find same
locked_table-IsIndexed = record { ids = (refl, (refl, tt)); slots = (refl, (refl, tt)) }

create_taken : (create up 1700000000000000000 next_key open_table).0 ≡ err already_exists
unfolding create Keyed.find same
create_taken = refl

auto_store_with_proof :
    (auto_store_unpublished up 0 (record next_key { publication_payload = bytes "p" }) []).0
    ≡ err carries_proof
unfolding auto_store_unpublished
auto_store_with_proof = refl

publish_foreign : (set_published up 0 (bytes "bob") (bytes "k1") true open_table).0 ≡ err not_found
unfolding set_published select first same
publish_foreign = refl

abbrev history : List (Conn × Statement)
history =
    (up, publishes 0 (bytes "bob") (bytes "k1") true)
    ∷ (up, auto_stores 0 (record next_key { user_id = bytes "bob" }))
    ∷ (down, deletes (bytes "bob") (bytes "k3"))
    ∷ (up, deletes (bytes "bob") (bytes "k1"))
    ∷ (up, proves 0 (bytes "bob") (bytes "k1") (bytes "x") (bytes "y") (bytes "z"))
    ∷ []

run-IsIndexed_example : IsIndexed (run history open_table)
run-IsIndexed_example = run-IsIndexed history open_table open_table-IsIndexed

run_isolated_example :
    find_slot (slot_of_input found_key) (run history open_table)
    ≡ find_slot (slot_of_input found_key) open_table
unfolding same
run_isolated_example =
    run_isolated history (slot_of_input found_key) open_table open_table-IsIndexed
      (refl, (refl, (refl, (refl, (refl, tt)))))

auto_store_locked_example :
    find_slot
      (slot_of_input found_key)
      (auto_store_all ((up, 0, next_key) ∷ (up, 1, found_key) ∷ []) locked_table)
    ≡ some proven
unfolding Keyed.find same
auto_store_locked_example =
    auto_store_locked ((up, 0, next_key) ∷ (up, 1, found_key) ∷ []) (slot_of_input found_key)
      locked_table proven refl (inl refl)

auto_store_replaces_example :
    (auto_store_unpublished up 1800000000000000000 next_key open_table).0
    ≡ ok (record stored { id = bytes "k2"; pem = bytes "PEM2"; updated_at = 1800000000 })
unfolding Keyed.find same
auto_store_replaces_example =
    (auto_store_replaces 1800000000000000000 next_key open_table stored refl refl refl refl refl
      (λ locked. elim locked [ inl e ↦ cc | inr e ↦ cc ]) refl).0
