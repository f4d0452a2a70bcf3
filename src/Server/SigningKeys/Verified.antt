-- ===== src/Server/SigningKeys/Verified.antt =====
-- What a proof that verifySigningKeyPublicationProof accepts is, said without its checks
-- (internal/server/routes-signing-keys.go, internal/protocolv2/signing-key-publication.go and
-- anchor.go).
use revaulter.Base.{
  ℕ, ◌+◌, ◌*◌, ◌≤◌, pos, Text, bytes, length, split, take, drop, ◌≡◌, true, some, [], ◌∷◌, ◌++◌,
}
use revaulter.Base.Results.{ok}
use revaulter.Utils.Base64.{url, decode}
use revaulter.Protocol.Envelope.{Jwk}
use revaulter.Protocol.Anchors.{AnchorCrypto, parse_p384_body}
use revaulter.Protocol.Publication.{Payload, format_int}
use revaulter.Protocol.Timeouts.{atoi}
use revaulter.Db.Auth.Accounts.{Accounts, UserRow, find_user}
use revaulter.Server.SigningKeys.Proof.{Bound}

-- The payload of a proof that binds these fields
abbrev pub bound_payload : Bound → ℕ → ℕ → Payload
bound_payload b epoch created = record {
  user_id = b.user;
  algorithm = b.algorithm;
  key_label = b.key_label;
  key_id = b.key_id;
  wrapped_key_epoch = pos epoch;
  created_at = pos created;
  v = pos 1;
}

-- The text that is signed
abbrev pub message : Bound → ℕ → ℕ → Text
message b epoch created =
    bytes "revaulter/v2/signing-key-publication\nuserId="
    ++ (b.user
        ++ (bytes "\nalgorithm="
            ++ (b.algorithm
                ++ (bytes "\nkeyLabel="
                    ++ (b.key_label
                        ++ (bytes "\nkeyId="
                            ++ (b.key_id
                                ++ (bytes "\nwrappedKeyEpoch="
                                    ++ (format_int (pos epoch)
                                        ++ (bytes "\ncreatedAt="
                                            ++ (format_int (pos created) ++ bytes "\nv=1")))))))))))

module _ (c : AnchorCrypto) where
  -- The bytes of the ES384 anchor key that a text holds
  pub record IsEs384 (text key : Text) : Type 0 where
    pub jwk : Jwk
    pub parsed : parse_p384_body text ≡ ok jwk
    pub kty : jwk.kty ≡ bytes "EC"
    pub crv : jwk.crv ≡ bytes "P-384"
    pub x : Text
    pub y : Text
    pub is_x : decode url jwk.x ≡ some x
    pub is_y : decode url jwk.y ≡ some y
    pub x_length : length x ≡ 48
    pub y_length : length y ≡ 48
    pub is_key : key ≡ 4 ∷ (x ++ y)
    pub on_curve : c.on_p384 key ≡ true

  -- At this time and with these accounts, the proof binds the fields: its lines have them, and the
  -- epoch of the owner, is at most two minutes away, and both signatures are of its text, under the
  -- owner's anchor keys.
  pub record IsVerified (now : ℕ) (a : Accounts) (b : Bound) (payload es ml : Text) : Type 0 where
    pub created : ℕ
    pub owner : UserRow
    pub has_owner : find_user b.user a.users ≡ some owner
    pub epoch_text : Text
    pub created_text : Text
    pub version_text : Text
    pub lines :
        split 10 payload
        ≡ (bytes "userId=" ++ b.user)
          ∷ (bytes "algorithm=" ++ b.algorithm)
          ∷ (bytes "keyLabel=" ++ b.key_label)
          ∷ (bytes "keyId=" ++ b.key_id)
          ∷ (bytes "wrappedKeyEpoch=" ++ epoch_text)
          ∷ (bytes "createdAt=" ++ created_text)
          ∷ (bytes "v=" ++ version_text)
          ∷ []
    pub is_epoch : atoi epoch_text ≡ some (pos owner.wrapped_key_epoch)
    pub is_created : atoi created_text ≡ some (pos created)
    pub is_version : atoi version_text ≡ some (pos 1)
    pub not_future : created * 1000000000 ≤ now + 120000000000
    pub not_old : now ≤ created * 1000000000 + 120000000000
    pub es_key : Text
    pub is_es_key : IsEs384 owner.anchor_es384_public_key es_key
    pub ml_key : Text
    pub is_ml_key : decode url owner.anchor_mldsa87_public_key ≡ some ml_key
    pub ml_key_length : length ml_key ≡ 2592
    pub es_sig : Text
    pub is_es_sig : decode url es ≡ some es_sig
    pub es_sig_length : length es_sig ≡ 96
    pub ml_sig : Text
    pub is_ml_sig : decode url ml ≡ some ml_sig
    pub ml_sig_length : length ml_sig ≡ 4627
    pub es_signed :
        c.ecdsa_verify es_key
          (c.sha384 (message b owner.wrapped_key_epoch created))
          (take 48 es_sig)
          (drop 48 es_sig)
        ≡ true
    pub ml_signed : c.mldsa_verify ml_key (message b owner.wrapped_key_epoch created) ml_sig ≡ true
