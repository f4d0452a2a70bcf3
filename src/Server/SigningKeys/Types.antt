-- ===== src/Server/SigningKeys/Types.antt =====
-- What the routes of a user's signing keys take and answer with
-- (internal/server/routes-signing-keys.go).
use revaulter.Base.{ℕ, Text, bytes, is_empty, Bool, ◌&&◌, not, Option, none, some, List, []}
use revaulter.Sql.{Conn}
use revaulter.Db.SigningKeys
use revaulter.Db.SigningKeys.{
  SigningKey, InsertSigningKeyInput, already_exists, not_found, create, delete_key, get_for_user,
  set_published, store_publication_proof, has_publication_proof,
}
use revaulter.Server.AuditTrail.{AuditDraw}

-- v2SigningKeyCreateRequest
pub record CreateRequest : Type 0 where
  pub algorithm : Text
  pub key_label : Text
  pub jwk : Text
  pub pem : Text
  pub published : Bool
  pub payload : Text
  pub signature_es384 : Text
  pub signature_mldsa87 : Text

-- v2SigningKeySetPublishedRequest
pub record UpdateRequest : Type 0 where
  pub published : Bool
  pub payload : Text
  pub signature_es384 : Text
  pub signature_mldsa87 : Text

-- HasProof, of either request
abbrev pub has_proof : Text → Text → Text → Bool
has_proof payload es ml = not (is_empty payload) && (not (is_empty es) && not (is_empty ml))

-- What a route answers: an error with its status, of which AbortWithErrorJSON makes an internal error
-- for any other error value; the metadata of a key, the key itself, or that it is deleted.
pub data Answer : Type 0 where
  error : ℕ → Text → Answer
  internal : Answer
  created updated detail : SigningKey → Answer
  deleted : Answer

-- What the world answers while a route runs: the statements, in their order, the clocks of the check
-- and of the writes, the audit row and the commit.
pub record Answers : Type 0 where
  pub first : Conn
  pub owner : Conn
  pub second : Conn
  pub third : Conn
  pub check_clock : ℕ
  pub clock : ℕ
  pub audit : AuditDraw
  pub commit : Conn

-- encoding/json, for an object with texts and Booleans
abbrev pub Flags : Type 0
Flags = List (Text × Text) → List (Text × Bool) → Option Text

abbrev pub or_empty : Option Text → Text
or_empty none = []
or_empty (some s) = s

abbrev pub no_session : Answer
no_session = error 401 (bytes "No session")

abbrev pub not_found_answer : Answer
not_found_answer = error 404 (bytes "not found")

-- The error of a transaction: ErrSigningKeyNotFound is answered with 404.
abbrev pub of_store : SigningKeys.SigningKeyError → Answer
of_store not_found = not_found_answer
of_store _ = internal
