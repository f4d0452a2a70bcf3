-- ===== src/Server/SigningKeys/Published.antt =====
-- Every route keeps what Proven says of the keys (internal/server/routes-signing-keys.go).
use revaulter.Base.{
  ℕ, Text, text_eq, ◌≡◌, refl, inl, inr, Bool, true, ◌&&◌, not, Option, none, some, All, arith,
  Bool-cases, Option-cases, if_cases,
}
use revaulter.Base.Results.{Result}
use revaulter.Sql.Every.{All-map, All-both, all_same}
use revaulter.Protocol.Anchors.{AnchorCrypto}
use revaulter.Protocol.SigningJwk.{Crypto}
use revaulter.Db.SigningKeys
use revaulter.Db.SigningKeys.{
  SigningKey, SigningKeys, InsertSigningKeyInput, IsIndexed, id_of, find_id, row_of, create,
  auto_store_unpublished, delete_key, is_owned, get_for_user, set_flag, set_published, set_proof,
  lacks_proof, store_publication_proof, has_publication_proof,
}
use revaulter.Db.SigningKeys.Slots.{
  step-IsIndexed, creates, auto_stores, deletes, publishes, proves,
}
use revaulter.Db.SigningKeys.Slots as Slots
use revaulter.Db.SigningKeys.Rows.{flag_all, proof_all}
use revaulter.Server.AuditTrail.{Context, Objects}
use revaulter.Server.State.{Tables}
use revaulter.Db.Auth.Accounts.{Accounts}
use revaulter.Server.SigningKeys.Proof.{ProofError}
use revaulter.Server.SigningKeys.Accepted.{verify_proof-IsVerified}
use revaulter.Server.SigningKeys.{
  Answer, Answers, Flags, UpdateRequest, has_proof, checked, after_flag, flagged, after_store,
  update_existing,
}
use revaulter.Server.SigningKeys.Proven.{IsSafe, Safe, recorded-Safe}
use revaulter.Db.SigningKeys.Rows.{proof_marks}
use revaulter.Db.SigningKeys.{is_replaceable, replace}

module _ (json : Objects) (flags : Flags) (crypto : Crypto) (anchors : AnchorCrypto)
    (seen : ℕ → Accounts → Type 0) where
  abbrev pub Kept : Tables → Type 0
  Kept t = Safe json flags crypto anchors seen t

  abbrev pub Fine : SigningKeys → Type 0
  Fine t = IsSafe json flags crypto anchors seen t

  -- The keys that the route names have a proof, if they are to be published.
  abbrev Marked : Text → Text → Bool → SigningKeys → Type 0
  Marked user id published t =
      All (λ k. is_owned user id k ≡ true → published ≡ true → has_publication_proof k ≡ true) t

  after_flag_safe :
      (a : Answers) (c : Context) (published : Bool) (t : Tables)
      (r : SigningKeys.Result SigningKey × SigningKeys)
      → Kept t
      → Fine r.1
      → Kept (after_flag json flags crypto anchors a c published t r).1
  after_flag_safe a c published t (SigningKeys.err e, keys) v w = v
  after_flag_safe a c published t (SigningKeys.ok k, keys) v w =
      recorded-Safe json flags crypto anchors seen k (record t { signing_keys = keys }) _ w

  flagged_safe :
      (a : Answers) (c : Context) (id : Text) (published : Bool) (t : Tables)
      → Kept t
      → Marked c.user_id id published t.signing_keys
      → Kept (flagged json flags crypto anchors a c id published t).1
  unfolding has_publication_proof
  flagged_safe a c id published t v m = after_flag_safe a c published t _ v (record {
    indexed =
        unfold Slots.step in
        step-IsIndexed (a.third, publishes a.clock c.user_id id published) t.signing_keys v.indexed;
    proven = flag_all _ a.third a.clock c.user_id id published t.signing_keys v.proven (
        All-map _ t.signing_keys (λ k x o. record { proof = x.0 o; verified = x.1.verified })
          (All-both _ _ t.signing_keys m v.proven));
  })

  after_store_safe :
      (a : Answers) (c : Context) (id : Text) (published : Bool) (t : Tables)
      (r : SigningKeys.Result SigningKey × SigningKeys)
      → Kept t
      → Fine r.1
      → ((x : SigningKey)
          → r.0 ≡ SigningKeys.ok x
          → All (λ k. is_owned c.user_id id k ≡ true → has_publication_proof k ≡ true) r.1)
      → Kept (after_store json flags crypto anchors a c id published t r).1
  after_store_safe a c id published t (SigningKeys.err e, keys) v w m = v
  after_store_safe a c id published t (SigningKeys.ok k, keys) v w m =
      flagged_safe a c id published (record t { signing_keys = keys }) w
        (All-map _ keys (λ k h o p. h o) (m k refl))

  -- The proof that an update attaches
  attached :
      (a : Answers) (c : Context) (id : Text) (r : UpdateRequest) (k : SigningKey) (t : Tables)
      → seen a.check_clock t.accounts
      → Kept t
      → find_id id t.signing_keys ≡ some k
      → k.user_id ≡ c.user_id
      → checked json flags crypto anchors a c k.algorithm k.key_label k.id r.payload
          r.signature_es384 r.signature_mldsa87 t
        ≡ none
      → Fine
          (store_publication_proof a.second a.clock c.user_id id r.payload r.signature_es384
            r.signature_mldsa87 t.signing_keys).1
  unfolding has_publication_proof
  attached a c id r k t noted v f u e = record {
    indexed =
        unfold Slots.step in
        step-IsIndexed
          (a.second, proves a.clock c.user_id id r.payload r.signature_es384 r.signature_mldsa87)
          t.signing_keys v.indexed;
    proven =
        proof_all _ a.second a.clock c.user_id id r.payload r.signature_es384 r.signature_mldsa87
          t.signing_keys v.proven
          (λ full.
            All-map _ t.signing_keys
              (λ x same_row o.
                let q : x ≡ k = same_row (ground arith) in
                record {
                  proof = λ n. ground arith;
                  verified = λ n. (
                    a.check_clock,
                    t.accounts,
                    noted,
                    verify_proof-IsVerified anchors a.owner a.check_clock _ _ _ _ t.accounts
                        (rw (q, u) e),
                  );
                })
              (all_same id_of id t.signing_keys k v.indexed.ids f));
  }

  pub update_existing_safe :
      (a : Answers) (c : Context) (id : Text) (r : UpdateRequest) (k : SigningKey) (t : Tables)
      → seen a.check_clock t.accounts
      → Kept t
      → find_id id t.signing_keys ≡ some k
      → k.user_id ≡ c.user_id
      → Kept (update_existing json flags crypto anchors a c id r k t).1
  update_existing_safe a c id r k t noted v f u =
      elim (Bool-cases (has_proof r.payload r.signature_es384 r.signature_mldsa87)) [
        | inl q ↦ elim (Option-cases checks) [
          | inl e ↦
              rw (q, update_existing, e)
                (after_store_safe a c id r.published t _ v (attached a c id r k t noted v f u e)
                  (λ x h.
                    proof_marks a.second a.clock c.user_id id r.payload r.signature_es384
                      r.signature_mldsa87 t.signing_keys x h))
          | inr (x, e) ↦ rw (q, update_existing, e) v
        ]
        | inr q ↦
            rw (q, update_existing)
              (if_cases (λ (x : Result Answer SigningKey × Tables). Kept x.1)
                (r.published && not (has_publication_proof k)) (λ e. v)
                (λ e. flagged_safe a c id r.published t v (
                  All-map _ t.signing_keys
                    (λ x same_row o p. rw (same_row (ground arith)) (ground arith))
                    (all_same id_of id t.signing_keys k v.indexed.ids f))))
      ]
    where
      checks : Option ProofError
      checks =
          checked json flags crypto anchors a c k.algorithm k.key_label k.id r.payload
            r.signature_es384 r.signature_mldsa87 t
