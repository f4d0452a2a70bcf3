-- ===== src/Server/Create/Stored.antt =====
-- The row and the event that RouteV2RequestCreate leaves, field by field
-- (internal/server/routes-request.go).
use revaulter.Base.{
  ℕ, ◌+◌, ◌-◌, ◌^◌, ◌≤◌, ℤ, pos, negsuc, Text, ◌≡◌, refl, ◌⊎◌, inl, inr, ltb, arith, [], Bool-cases,
}
use revaulter.Time.{unix}
use revaulter.Protocol.Timeouts.{add_timeout, plus_five_seconds}
use revaulter.Db.Requests
use revaulter.Db.Requests.{RequestRow, row_of}
use revaulter.Db.Auth.Accounts.{UserRow}
use revaulter.Server.AuditTrail.{Context, Objects}
use revaulter.Server.CreateBody.{RequestCreateBody}
use revaulter.Server.State.{RequestExpiryEvent}
use revaulter.Server.Create.{Answers, Settings, RequestEncEnvelope, input_of, expiry_event}

-- The time that is the timeout after now, or before it where the timeout is negative
abbrev pub IsDeadline : ℕ → ℤ → ℕ → Type 0
IsDeadline now timeout t =
    ((n : ℕ) × (timeout ≡ pos n) × (t ≡ now + n))
    ⊎ ((n : ℕ) × (timeout ≡ negsuc n) × (t ≡ now - (n + 1)))

-- The time five seconds after that; of a timeout that leaves an int64 with the five seconds, nothing
-- is said.
abbrev pub IsExpiry : ℕ → ℤ → ℕ → Type 0
IsExpiry now timeout t =
    ((n : ℕ) × (timeout ≡ pos n) × ((2 ^ 63 ≤ n + 5000000000) ⊎ (t ≡ now + n + 5000000000)))
    ⊎ ((n : ℕ) × (timeout ≡ negsuc n) × (t ≡ now + 5000000000 - (n + 1)))

add_timeout-IsDeadline : (now : ℕ) (timeout : ℤ) → IsDeadline now timeout (add_timeout now timeout)
add_timeout-IsDeadline now (pos n) = inl (n, refl, refl)
add_timeout-IsDeadline now (negsuc n) = inr (n, refl, omega arith)

plus_five_seconds-IsExpiry :
    (now : ℕ) (timeout : ℤ) → IsExpiry now timeout (add_timeout now (plus_five_seconds timeout))
plus_five_seconds-IsExpiry now (pos n) = inl (
  n,
  refl,
  elim (Bool-cases (ltb (n + 5000000000) (2 ^ 63))) [
    | inl fits ↦ inr (ground arith)
    | inr over ↦ inl (ground arith)
  ],
)
plus_five_seconds-IsExpiry now (negsuc n) = inr (n, refl, ground arith)

module _ (json : Objects) (cfg : Settings) where
  -- The row of a request: what the body in normal form says, under the caller's user and address,
  -- pending from now to the deadline.
  pub record IsRow (a : Answers) (c : Context) (user : UserRow) (op : Text) (b : RequestCreateBody)
      (timeout : ℤ) (r : RequestRow) : Type 0 where
    pub state : r.state ≡ a.state
    pub status : r.status ≡ Requests.pending
    pub operation : r.operation ≡ op
    pub user_id : r.user_id ≡ user.id
    pub requestor_ip : r.requestor_ip ≡ c.client_ip
    pub key_label : r.key_label ≡ b.key_label
    pub algorithm : r.algorithm ≡ b.algorithm
    pub note : r.note ≡ b.note
    pub created_at : r.created_at ≡ unix a.now
    pub updated_at : r.updated_at ≡ unix a.now
    pub deadline : ℕ
    pub is_deadline : IsDeadline a.now timeout deadline
    pub expires_at : r.expires_at ≡ unix deadline
    pub envelope : RequestEncEnvelope
    pub key : envelope.cli_ephemeral_public_key ≡ b.cli_ephemeral_public_key
    pub mlkem : envelope.mlkem_ciphertext ≡ b.mlkem_ciphertext
    pub nonce : envelope.nonce ≡ b.encrypted_payload_nonce
    pub payload : envelope.ciphertext ≡ b.encrypted_payload
    pub encrypted_request : r.encrypted_request ≡ cfg.marshal_envelope envelope
    pub encrypted_result : r.encrypted_result ≡ []

  -- The event that expires it, five seconds after the deadline
  pub record IsEvent (a : Answers) (user : UserRow) (timeout : ℤ) (e : RequestExpiryEvent)
      : Type 0 where
    pub state : e.state ≡ a.state
    pub user_id : e.user_id ≡ user.id
    pub ttl : IsExpiry a.now timeout e.ttl

  pub row_of-IsRow :
      (a : Answers) (c : Context) (user : UserRow) (op : Text) (b : RequestCreateBody) (timeout : ℤ)
      → IsRow a c user op b timeout (row_of (input_of json cfg a c user op b timeout))
  row_of-IsRow a c user op b timeout = record {
    state = refl;
    status = refl;
    operation = refl;
    user_id = refl;
    requestor_ip = refl;
    key_label = refl;
    algorithm = refl;
    note = refl;
    created_at = refl;
    updated_at = refl;
    deadline = add_timeout a.now timeout;
    is_deadline = add_timeout-IsDeadline a.now timeout;
    expires_at = refl;
    envelope = record {
      cli_ephemeral_public_key = b.cli_ephemeral_public_key;
      mlkem_ciphertext = b.mlkem_ciphertext;
      nonce = b.encrypted_payload_nonce;
      ciphertext = b.encrypted_payload;
    };
    key = refl;
    mlkem = refl;
    nonce = refl;
    payload = refl;
    encrypted_request = refl;
    encrypted_result = refl;
  }

  pub expiry_event-IsEvent :
      (a : Answers) (user : UserRow) (timeout : ℤ)
      → IsEvent a user timeout (expiry_event json cfg a user timeout)
  expiry_event-IsEvent a user timeout = record {
    state = refl;
    user_id = refl;
    ttl = plus_five_seconds-IsExpiry a.now timeout;
  }
