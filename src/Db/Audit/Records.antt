-- ===== src/Db/Audit/Records.antt =====
-- What every row of the audit log satisfies, over any history of AuditStore (internal/db/audit.go).
use mathlib.Core.Path.{subst}
use revaulter.Base.{
  ℕ, zero, suc, ◌≤◌, inl, inr, Text, bytes, is_empty, text_eq, length, take, ◌≡◌, refl, Bool, true,
  false, Option, none, some, List, [], ◌∷◌, ◌++◌, All, arith, ltb, Bool-cases, Option-cases,
}
use revaulter.Sql.{Conn, up, down, delete}
use revaulter.Sql.Keyed
use revaulter.Db.Audit.Types.{
  AuditEvent, AuditEventInput, AuditLog, Result, ok, err, id_of, is_event_type, is_outcome,
  is_auth_method, validate, event_of, or_empty_object, trim_agent, is_long_ip,
}
use revaulter.Db.Audit.{insert, insert_valid, prune_before}

abbrev AtMost : ℕ → Option Text → Type 0
AtMost n none = Unit
AtMost n (some s) = length s ≤ n

module _ (json_valid : Text → Bool) where
  -- A row within the limits.
  pub record IsSound (r : AuditEvent) : Type 0 where
    pub known_type : is_event_type r.event_type ≡ true
    pub known_outcome : is_outcome r.outcome ≡ true
    pub known_method : is_auth_method r.auth_method ≡ true
    pub short_metadata : length r.metadata ≤ 4096
    pub json_metadata : json_valid r.metadata ≡ true
    pub short_ip : AtMost 64 r.client_ip
    pub short_agent : AtMost 512 r.user_agent

  length-take : (n : ℕ) (s : Text) → length (take n s) ≤ n
  length-take zero s = omega arith
  length-take (suc n) [] = omega arith
  length-take (suc n) (c ∷ s) = omega (arith, length-take n s)

  trim_agent_short : (ua : Option Text) → AtMost 512 (trim_agent ua)
  trim_agent_short none = tt
  trim_agent_short (some ua) = elim (Bool-cases (ltb 512 (length ua))) [
    | inl e ↦ rw e (length-take 512 ua)
    | inr e ↦ rw e (ground arith)
  ]

  short_ip_lem : (ip : Option Text) → is_long_ip ip ≡ false → AtMost 64 ip
  short_ip_lem none h = tt
  short_ip_lem (some ip) h = ground arith

  pub record IsAccepted (i : AuditEventInput) : Type 0 where
    pub known_type : is_event_type i.event_type ≡ true
    pub known_outcome : is_outcome i.outcome ≡ true
    pub known_method : is_auth_method i.auth_method ≡ true
    pub short_metadata : length i.metadata ≤ 4096
    pub json_metadata : is_empty i.metadata ≡ false → json_valid i.metadata ≡ true
    pub short_ip : is_long_ip i.client_ip ≡ false

  length-nonempty : (s : Text) → is_empty s ≡ false → ltb 0 (length s) ≡ true
  length-nonempty [] h = cc
  length-nonempty (c ∷ s) h = ground arith

  pub validate-IsAccepted :
      (i j : AuditEventInput)
      → validate json_valid i ≡ ok j
      → IsAccepted i × (record i { user_agent = trim_agent i.user_agent } ≡ j)
  unfolding validate
  validate-IsAccepted i j e = (
    record {
      known_type = ground arith;
      known_outcome = ground arith;
      known_method = ground arith;
      short_metadata = ground arith;
      json_metadata = λ n. ground (arith, length-nonempty i.metadata n);
      short_ip = ground arith;
    },
    ground arith,
  )

  module _ (json_empty : json_valid (bytes "{}") ≡ true) where
    metadata_sound :
        (m : Text)
        → length m ≤ 4096
        → (is_empty m ≡ false → json_valid m ≡ true)
        → (length (or_empty_object m) ≤ 4096) × (json_valid (or_empty_object m) ≡ true)
    metadata_sound [] h v = (omega arith, json_empty)
    metadata_sound (c ∷ m) h v = (h, v refl)

    event-IsSound :
        (id : Text) (now : ℕ) (i : AuditEventInput)
        → IsAccepted i
        → IsSound (event_of id now (record i { user_agent = trim_agent i.user_agent }))
    event-IsSound id now i a =
        let m = metadata_sound i.metadata a.short_metadata a.json_metadata in
        record {
          known_type = a.known_type;
          known_outcome = a.known_outcome;
          known_method = a.known_method;
          short_metadata = m.0;
          json_metadata = m.1;
          short_ip = short_ip_lem i.client_ip a.short_ip;
          short_agent = trim_agent_short i.user_agent;
        }

    -- The log: sound rows with distinct ids.
    pub record IsLog (t : AuditLog) : Type 0 where
      pub sound : All IsSound t
      pub distinct : Keyed.Distinct id_of t

    All-delete : (p : AuditEvent → Bool) (t : AuditLog) → All IsSound t → All IsSound (delete p t)
    unfolding delete
    All-delete p [] a = a
    All-delete p (r ∷ t) a = elim (Bool-cases (p r)) [
      | inl e ↦ rw e (All-delete p t a.1)
      | inr e ↦ rw e (a.0, All-delete p t a.1)
    ]

    All-append :
        (t : AuditLog) (r : AuditEvent) → All IsSound t → IsSound r → All IsSound (t ++ r ∷ [])
    All-append [] r a s = (s, tt)
    All-append (x ∷ t) r a s = (a.0, All-append t r a.1 s)

    insert_valid-IsLog :
        (c : Conn) (id : Text) (now : ℕ) (v : Result AuditEventInput) (t : AuditLog)
        → ((i : AuditEventInput) → v ≡ ok i → IsSound (event_of id now i))
        → IsLog t
        → IsLog (insert_valid c id now v t).1
    unfolding Keyed.insert
    insert_valid-IsLog c id now (err e) t h l = l
    insert_valid-IsLog down id now (ok i) t h l = l
    insert_valid-IsLog up id now (ok i) t h l = elim (Option-cases (Keyed.find id_of id t)) [
      | inr (r, e) ↦ rw (e, insert_valid) l
      | inl e ↦
          rw (e, insert_valid)
            (record {
              sound = All-append t (event_of id now i) l.sound (h i refl);
              distinct = Keyed.Distinct-append id_of t (event_of id now i) e l.distinct;
            })
    ]

    pub insert-IsLog :
        (c : Conn) (id : Text) (now : ℕ) (i : AuditEventInput) (t : AuditLog)
        → IsLog t
        → IsLog (insert json_valid c id now i t).1
    unfolding insert
    insert-IsLog c id now i t l =
        insert_valid-IsLog c id now (validate json_valid i) t
          (λ j e.
            let (a, q) = validate-IsAccepted i j e in
            subst (λ x. IsSound (event_of id now x)) q (event-IsSound id now i a))
          l

    pub prune-IsLog :
        (c : Conn) (before : ℕ) (t : AuditLog) → IsLog t → IsLog (prune_before c before t).1
    unfolding prune_before
    prune-IsLog down before t l = l
    prune-IsLog up before t l = record {
      sound = All-delete (λ r. ltb r.created_at before) t l.sound;
      distinct = Keyed.Distinct-delete id_of (λ r. ltb r.created_at before) t l.distinct;
    }

  -- A call of AuditStore that writes.
  pub data Write : Type 0 where
    inserting : Conn → Text → ℕ → AuditEventInput → Write
    pruning : Conn → ℕ → Write

  pub perform : Write → AuditLog → AuditLog
  perform (inserting c id now i) t = (insert json_valid c id now i t).1
  perform (pruning c before) t = (prune_before c before t).1

  pub run : List Write → AuditLog → AuditLog
  run [] t = t
  run (w ∷ ws) t = run ws (perform w t)

  -- Every history of inserts and prunes, failing or not, keeps the ids distinct and each row within
  -- the limits: a known event type, outcome and authentication method, metadata of at most 4096
  -- bytes that is JSON, an address of at most 64 bytes, a user agent of at most 512. (`{}` is JSON.)
  pub run-IsLog :
      (json_empty : json_valid (bytes "{}") ≡ true) (ws : List Write) (t : AuditLog)
      → IsLog json_empty t
      → IsLog json_empty (run ws t)
  unfolding run perform
  run-IsLog j [] t l = l
  run-IsLog j (inserting c id now i ∷ ws) t l = run-IsLog j ws _ (insert-IsLog j c id now i t l)
  run-IsLog j (pruning c before ∷ ws) t l = run-IsLog j ws _ (prune-IsLog j c before t l)
