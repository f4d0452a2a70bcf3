-- ===== src/Db/SigningKeys/Types.antt =====
-- The rows of v2_published_signing_keys and their two unique indexes
-- (internal/db/signing_keys.go and the migrations).
use revaulter.Base.{
  ℕ, Text, same, Eq, text_eq, is_empty, ◌≡◌, ◌↔◌, Bool, true, ◌&&◌, not, Option, List, arith,
  same_iff,
}
use revaulter.Sql.Keyed

-- PublishedSigningKey, and the row that it is read from; times in seconds.
pub record SigningKey : Type 0 where
  pub id : Text
  pub user_id : Text
  pub algorithm : Text
  pub key_label : Text
  pub jwk : Text
  pub pem : Text
  pub published : Bool
  pub publication_payload : Text
  pub publication_signature_es384 : Text
  pub publication_signature_mldsa87 : Text
  pub created_at : ℕ
  pub updated_at : ℕ

pub record InsertSigningKeyInput : Type 0 where
  pub id : Text
  pub user_id : Text
  pub algorithm : Text
  pub key_label : Text
  pub jwk : Text
  pub pem : Text
  pub published : Bool
  pub publication_payload : Text
  pub publication_signature_es384 : Text
  pub publication_signature_mldsa87 : Text

-- `constraint`: the primary key is taken by a row of another slot.
pub data SigningKeyError : Type 0 where
  driver constraint already_exists not_found marked_published carries_proof empty_proof :
      SigningKeyError

pub data Result {ℓ} (A : Type ℓ) : Type ℓ where
  ok : A → Result A
  err : SigningKeyError → Result A

abbrev pub SigningKeys : Type 0
SigningKeys = List SigningKey

-- What the unique index idx_v2_published_signing_keys_user_alg_label covers.
pub record Slot : Type 0 where
  pub user : Text
  pub alg : Text
  pub label : Text

abbrev pub same_slot : Slot → Slot → Bool
same_slot a b = same a.user b.user && (same a.alg b.alg && same a.label b.label)

pub same_slot_iff : (a b : Slot) → (same_slot a b ≡ true) ↔ (a ≡ b)
same_slot_iff a b = (
  λ h. ground (arith, same_iff a.user b.user, same_iff a.alg b.alg, same_iff a.label b.label),
  λ e. ground (arith, same_iff a.user b.user, same_iff a.alg b.alg, same_iff a.label b.label),
)

instance abbrev pub slot_eq : Eq Slot
slot_eq = record { beq = same_slot; beq_iff = same_slot_iff }

abbrev pub id_of : SigningKey → Text
id_of k = k.id

abbrev pub slot_of : SigningKey → Slot
slot_of k = record { user = k.user_id; alg = k.algorithm; label = k.key_label }

abbrev pub find_id : Text → SigningKeys → Option SigningKey
find_id = Keyed.find id_of

abbrev pub find_slot : Slot → SigningKeys → Option SigningKey
find_slot = Keyed.find slot_of

-- Both unique indexes of the table hold.
pub record IsIndexed (t : SigningKeys) : Type 0 where
  pub ids : Keyed.Distinct id_of t
  pub slots : Keyed.Distinct slot_of t

-- HasPublicationProof
unfoldable pub has_publication_proof : SigningKey → Bool
has_publication_proof k =
    not (is_empty k.publication_payload)
    && (not (is_empty k.publication_signature_es384)
        && not (is_empty k.publication_signature_mldsa87))

abbrev pub slot_of_input : InsertSigningKeyInput → Slot
slot_of_input i = record { user = i.user_id; alg = i.algorithm; label = i.key_label }

abbrev pub row_of : ℕ → InsertSigningKeyInput → SigningKey
row_of now i = record {
  id = i.id;
  user_id = i.user_id;
  algorithm = i.algorithm;
  key_label = i.key_label;
  jwk = i.jwk;
  pem = i.pem;
  published = i.published;
  publication_payload = i.publication_payload;
  publication_signature_es384 = i.publication_signature_es384;
  publication_signature_mldsa87 = i.publication_signature_mldsa87;
  created_at = now;
  updated_at = now;
}
