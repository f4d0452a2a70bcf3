-- ===== src/Db/Audit/Stored.antt =====
-- What Insert leaves in the audit log (internal/db/audit.go).
use revaulter.Base.{
  ℕ, Text, same_refl, same_iff, text_eq, ◌≡◌, refl, sym, ap, ◌∙◌, inl, inr, Bool, none, some, [],
  ◌∷◌, ◌++◌, arith, Option-cases,
}
use revaulter.Sql.{Conn, up, down}
use revaulter.Sql.Keyed
use revaulter.Db.Audit.Types.{
  AuditEvent, AuditEventInput, AuditLog, Result, ok, err, id_of, event_of, validate, driver,
}
use revaulter.Db.Audit.{insert, insert_valid}
use revaulter.Db.Audit.Records.{validate-IsAccepted}

-- What a row takes over from the input that it was made of.
pub record Takes (i : AuditEventInput) (e : AuditEvent) : Type 0 where
  pub same_state : e.request_state ≡ i.request_state
  pub same_actor : e.actor_user_id ≡ i.actor_user_id
  pub same_type : e.event_type ≡ i.event_type

ok_inj :
    {a b : AuditEvent} {s t : AuditLog}
    → ◌≡◌ {A = Result AuditEvent × AuditLog} (ok a, s) (ok b, t)
    → (a ≡ b) × (s ≡ t)
ok_inj e = (cc, cc)

stored_row :
    (r e : AuditEvent) (t log : AuditLog)
    → Keyed.find id_of r.id t ≡ none
    → (r ≡ e) × (t ++ r ∷ [] ≡ log)
    → Keyed.find id_of r.id log ≡ some e
stored_row r e t log f (p, l) =
    rw (← l) (Keyed.find-append id_of r.id t r f ∙ rw (same_refl r.id) (ap some p))

stored :
    (c : Conn) (id : Text) (now : ℕ) (i : AuditEventInput) (t log : AuditLog) (e : AuditEvent)
    → insert_valid c id now (ok i) t ≡ (ok e, log)
    → (Keyed.find id_of id log ≡ some e) × (event_of id now i ≡ e)
unfolding Keyed.insert
stored down id now i t log e h = (cc, cc)
stored up id now i t log e h = elim (Option-cases (Keyed.find id_of id t)) [
  | inr (r, f) ↦
      let refused : insert_valid up id now (ok i) t ≡ (err driver, t) = rw (f, insert_valid) in cc
  | inl f ↦
      let added : insert_valid up id now (ok i) t
          ≡ (ok (event_of id now i), t ++ event_of id now i ∷ []) =
        rw (f, insert_valid) in
      let done = ok_inj (sym added ∙ h) in (stored_row (event_of id now i) e t log f done, done.0)
]

-- The same, on what the check of the input answers.
stores_valid :
    (json_valid : Text → Bool) (c : Conn) (id : Text) (now : ℕ) (i : AuditEventInput)
    (t log : AuditLog) (e : AuditEvent) (v : Result AuditEventInput)
    → ((j : AuditEventInput) → v ≡ ok j → validate json_valid i ≡ ok j)
    → insert_valid c id now v t ≡ (ok e, log)
    → (Keyed.find id_of id log ≡ some e) × Takes i e
stores_valid json_valid c id now i t log e (err x) q h = cc
stores_valid json_valid c id now i t log e (ok j) q h =
    let (found, made) = stored c id now j t log e h in
    let taken = (validate-IsAccepted json_valid i j (q j refl)).1 in
    (
      found,
      record {
        same_state =
            sym (ap (λ (x : AuditEvent). x.request_state) made)
            ∙ sym (ap (λ (x : AuditEventInput). x.request_state) taken);
        same_actor =
            sym (ap (λ (x : AuditEvent). x.actor_user_id) made)
            ∙ sym (ap (λ (x : AuditEventInput). x.actor_user_id) taken);
        same_type =
            sym (ap (λ (x : AuditEvent). x.event_type) made)
            ∙ sym (ap (λ (x : AuditEventInput). x.event_type) taken);
      },
    )

keeps_valid :
    (c : Conn) (id : Text) (now : ℕ) (v : Result AuditEventInput) (t : AuditLog) (k : Text)
    (e : AuditEvent)
    → Keyed.find id_of k t ≡ some e
    → Keyed.find id_of k (insert_valid c id now v t).1 ≡ some e
unfolding Keyed.insert
keeps_valid c id now (err x) t k e h = h
keeps_valid down id now (ok i) t k e h = h
keeps_valid up id now (ok i) t k e h = elim (Option-cases (Keyed.find id_of id t)) [
  | inr (r, f) ↦ rw (f, insert_valid) h
  | inl f ↦
      rw (f, insert_valid)
        (Keyed.find-append_fresh id_of k t (event_of id now i) f ∙ ground (arith, same_iff id k))
]

-- An event that Insert answers with is found under its id, and tells what it was told.
pub insert_stores :
    (json_valid : Text → Bool) (c : Conn) (id : Text) (now : ℕ) (i : AuditEventInput)
    (t log : AuditLog) (e : AuditEvent)
    → insert json_valid c id now i t ≡ (ok e, log)
    → (Keyed.find id_of id log ≡ some e) × Takes i e
insert_stores json_valid c id now i t log e h =
    stores_valid json_valid c id now i t log e (validate json_valid i) (λ j q. q)
      (unfold insert in h)

-- An Insert, failing or not, keeps every event that is there.
pub insert_keeps :
    (json_valid : Text → Bool) (c : Conn) (id : Text) (now : ℕ) (i : AuditEventInput) (t : AuditLog)
    (k : Text) (e : AuditEvent)
    → Keyed.find id_of k t ≡ some e
    → Keyed.find id_of k (insert json_valid c id now i t).1 ≡ some e
unfolding insert
insert_keeps json_valid c id now i t k e h = keeps_valid c id now (validate json_valid i) t k e h
