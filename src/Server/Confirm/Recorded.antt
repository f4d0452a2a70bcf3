-- ===== src/Server/Confirm/Recorded.antt =====
-- The two transactions of RouteV2APIConfirm and the automatic store after them
-- (internal/server/routes-api.go).

use revaulter.Base.{
  Text, bytes, same, is_empty, text_eq, ◌≡◌, refl, ◌⊎◌, inl, inr, false, Option, none, some,
  if_cases,
}
use revaulter.Base.Results.{Result, ok, err}
use revaulter.Sql.{Conn, up, down}
use revaulter.Json.{Codec}
use revaulter.Protocol.Envelope.{ResponseEnvelope}
use revaulter.Protocol.SigningJwk.{Crypto, JwkError, validate_signing_jwk_and_pem}
use revaulter.Db.Requests
use revaulter.Db.Requests.{RequestRow, RequestRecord, find}
use revaulter.Db.SigningKeys
use revaulter.Db.SigningKeys.{auto_store_unpublished}
use revaulter.Db.Audit
use revaulter.Db.Audit.{AuditEvent, AuditLog, id_of}
use revaulter.Server.AuditTrail.{Context, Objects, audit_event}
use revaulter.Server.Logged.{Logged, audit_logs, Logged-event}
use revaulter.Server.State.{Tables, execute_in_transaction}
use revaulter.Server.Confirm.{
  Answers, TxError, failed, recorded, after_verdict, verdict_fields, maybe_auto_store,
  auto_store_signing_key, after_auto_store, after_key_check, auto_store_input, ConfirmPublicKey,
  tx_error,
}

module _ (json : Objects) (codec : Codec ResponseEnvelope) (crypto : Crypto) where
  -- A transaction either leaves the tables as they were, or commits both the statement on the
  -- requests and the audit row.
  tx_end :
      (commit : Conn) (rec : RequestRecord) (t after : Tables)
      (w : Audit.Result AuditEvent × AuditLog) (P : AuditLog → Type 0)
      → ((e : AuditEvent) (log : AuditLog) → w ≡ (Audit.ok e, log) → P log)
      → let out = execute_in_transaction commit failed t (recorded json codec crypto rec after w) in
        ((x : TxError) × (out ≡ (err x, t)))
        ⊎ ((log : AuditLog) × P log × (out ≡ (ok rec, record after { audit = log })))
  tx_end commit rec t after (Audit.err e, log) P h = inl (failed, refl)
  tx_end up rec t after (Audit.ok e, log) P h = inr (log, h e log refl, refl)
  tx_end down rec t after (Audit.ok e, log) P h = inl (failed, refl)

  pub tx_cases :
      (a : Answers) (c : Context) (event state : Text) (t : Tables)
      (r : Requests.Result RequestRecord × Requests.Requests)
      → is_empty c.user_id ≡ false
      → let out =
          execute_in_transaction a.commit failed t
            (after_verdict json codec crypto a c event state t r) in
        ((x : TxError) × (out ≡ (err x, t)))
        ⊎ ((rec : RequestRecord) × (r.0 ≡ Requests.ok rec)
            × ((log : AuditLog) × Logged a.audit.id event c.user_id state log
                × (out ≡ (ok rec, record t { requests = r.1; audit = log }))))
  tx_cases a c event state t (Requests.err e, requests) known = inl (tx_error e, refl)
  tx_cases a c event state t (Requests.ok rec, requests) known =
      elim (tx_end a.commit rec t (record t { requests = requests })
        (audit_event json a.audit c (verdict_fields json codec crypto event c.user_id state rec)
          t.audit)
        (Logged a.audit.id event c.user_id state)
        (λ e log q.
          audit_logs json a.audit c (verdict_fields json codec crypto event c.user_id state rec)
            t.audit log e known q)) [ inl x ↦ inl x | inr done ↦ inr (rec, refl, done) ]

  module _ (id event user state : Text) where
    -- The automatic store of a signing key leaves the requests and what is logged.
    abbrev pub Keeps : Tables → Tables → Type 0
    Keeps t t' =
        (t'.requests ≡ t.requests)
        × (Logged id event user state t.audit → Logged id event user state t'.audit)

    stored_keeps :
        (a : Answers) (c : Context) (rec : RequestRecord) (t : Tables)
        (r : SigningKeys.Result SigningKeys.SigningKey × SigningKeys.SigningKeys)
        → Keeps t (after_auto_store json codec crypto a c rec t r)
    stored_keeps a c rec t (SigningKeys.err e, keys) = (refl, λ l. l)
    stored_keeps a c rec t (SigningKeys.ok k, keys) =
        (refl, λ l. Logged-event json a.store_audit c _ id event user state t.audit l)

    checked_keeps :
        (a : Answers) (c : Context) (rec : RequestRecord) (key : ConfirmPublicKey) (t : Tables)
        (r : Result JwkError (Text × Text))
        → Keeps t (after_key_check json codec crypto a c rec key t r)
    checked_keeps a c rec key t (err e) = (refl, λ l. l)
    checked_keeps a c rec key t (ok (k, jwk)) = stored_keeps a c rec t (
        auto_store_unpublished a.store a.store_clock
          (auto_store_input json codec crypto rec k key jwk) t.signing_keys)

    auto_store_keeps :
        (a : Answers) (c : Context) (rec : RequestRecord) (key : ConfirmPublicKey) (t : Tables)
        → Keeps t (auto_store_signing_key json codec crypto a c rec key t)
    unfolding auto_store_signing_key
    auto_store_keeps a c rec key t =
        checked_keeps a c rec key t
          (validate_signing_jwk_and_pem crypto rec.algorithm key.jwk key.pem)

    pub maybe_keeps :
        (a : Answers) (c : Context) (rec : RequestRecord) (key : Option ConfirmPublicKey)
        (t : Tables)
        → Keeps t (maybe_auto_store json codec crypto a c rec key t)
    maybe_keeps a c rec none t = (refl, λ l. l)
    maybe_keeps a c rec (some key) t =
        if_cases (Keeps t) (same rec.operation (bytes "sign")) (λ e. auto_store_keeps a c rec key t)
          (λ e. (refl, λ l. l))
