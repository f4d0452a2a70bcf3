-- ===== src/Server/SigningKeys/Proof.antt =====
-- verifySigningKeyPublicationProof (internal/server/routes-signing-keys.go).
use revaulter.Base.{
  ℕ, ◌*◌, ℤ, pos, negsuc, Text, same, is_empty, Bool, false, ◌||◌, not, Option, none, some, ◌==◌,
  if◌then◌else◌,
}
use revaulter.Base.Results.{Result, ok, err}
use revaulter.Sql.{Conn}
use revaulter.Time.{second}
use revaulter.Protocol.Anchors.{
  AnchorCrypto, AnchorError, parse_anchor_pubkeys, parse_hybrid_signatures,
}
use revaulter.Protocol.Publication.{Payload, parse_payload, is_recent, verify_publication}
use revaulter.Db.Auth.Types as Auth
use revaulter.Db.Auth.Accounts.{Accounts, UserRow, by_id, get_user}

-- The errors, in the order of the checks.
pub data ProofError : Type 0 where
  missing bad_body bad_version other_user other_algorithm other_label other_key not_recent :
      ProofError
  driver no_user other_epoch bad_anchor bad_signatures unverified : ProofError

abbrev pub is_number : ℤ → ℕ → Bool
is_number (pos m) n = m == n
is_number (negsuc m) n = false

-- The fields of a key that a proof binds.
pub record Bound : Type 0 where
  pub user : Text
  pub algorithm : Text
  pub key_label : Text
  pub key_id : Text

-- The cross-checks of the payload
abbrev pub check_payload : ℕ → Bound → Payload → Option ProofError
check_payload now b p =
    if not (is_number p.v 1)
    then some bad_version
    else if not (same p.user_id b.user)
    then some other_user
    else if not (same p.algorithm b.algorithm)
    then some other_algorithm
    else if not (same p.key_label b.key_label)
    then some other_label
    else if not (same p.key_id b.key_id)
    then some other_key
    else if not (is_recent now (120 * second) p.created_at)
    then some not_recent
    else none

module _ (c : AnchorCrypto) where
  abbrev pub check_signatures :
      Payload
      → Result AnchorError (Text × Text)
      → Result AnchorError (Text × Text)
      → Option ProofError
  check_signatures p (err e) sigs = some bad_anchor
  check_signatures p (ok keys) (err e) = some bad_signatures
  check_signatures p (ok (es384, mldsa87)) (ok (sig_es, sig_ml)) =
      if verify_publication c es384 mldsa87 p sig_es sig_ml then none else some unverified

  -- What the owner's row says
  abbrev pub check_owner : Payload → Text → Text → Auth.Result (Option UserRow) → Option ProofError
  check_owner p es ml (Auth.err e) = some driver
  check_owner p es ml (Auth.ok none) = some no_user
  check_owner p es ml (Auth.ok (some owner)) =
      if not (is_number p.wrapped_key_epoch owner.wrapped_key_epoch)
      then some other_epoch
      else check_signatures p
          (parse_anchor_pubkeys c owner.anchor_es384_public_key owner.anchor_mldsa87_public_key)
          (parse_hybrid_signatures es ml)

  abbrev pub after_parse :
      Conn → ℕ → Bound → Text → Text → Accounts → Option Payload → Option ProofError
  after_parse conn now b es ml a none = some bad_body
  after_parse conn now b es ml a (some p) = elim (check_payload now b p) [
    | some e ↦ some e
    | none ↦ check_owner p es ml (get_user conn by_id b.user a)
  ]

  -- verifySigningKeyPublicationProof
  unfoldable pub verify_proof : Conn → ℕ → Bound → Text → Text → Text → Accounts → Option ProofError
  verify_proof conn now b payload es ml a =
      if is_empty payload || (is_empty es || is_empty ml)
      then some missing
      else after_parse conn now b es ml a (parse_payload payload)
