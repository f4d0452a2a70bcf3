-- ===== src/Server/SigningKeys/Reachable.antt =====
-- Whatever the routes do, a published key has a verified proof
-- (internal/server/routes-signing-keys.go, and autoStoreSigningKey of routes-api.go).
use revaulter.Base.{
  ℕ, Text, is_empty, text_eq, ◌≡◌, refl, sym, Option, none, some, List, [], ◌∷◌, arith, if_cases,
}
use revaulter.Base.Results.{Result, ok, err}
use revaulter.Sql.{Conn, up, down}
use revaulter.Json.{Codec}
use revaulter.Protocol.Envelope.{ResponseEnvelope}
use revaulter.Protocol.Anchors.{AnchorCrypto}
use revaulter.Protocol.SigningJwk.{Crypto, JwkError}
use revaulter.Db.SigningKeys
use revaulter.Db.SigningKeys.{
  SigningKey, SigningKeys, InsertSigningKeyInput, IsIndexed, id_of, find_id, row_of, create,
  auto_store_unpublished, delete_key, is_owned, get_for_user, set_flag, set_published, set_proof,
  lacks_proof, store_publication_proof, has_publication_proof,
}
use revaulter.Db.SigningKeys.Slots.{
  step-IsIndexed, creates, auto_stores, deletes, publishes, proves,
}
use revaulter.Db.SigningKeys.Slots as Slots
use revaulter.Db.SigningKeys.Access.{get_for_user_exact}
use revaulter.Db.SigningKeys.Rows.{delete_all}
use revaulter.Db.Requests.{RequestRecord}
use revaulter.Db.Auth.Accounts.{Accounts}
use revaulter.Server.AuditTrail.{Context, Objects}
use revaulter.Server.State.{Tables}
use revaulter.Server.SigningKeys.{
  Answer, Answers, Flags, CreateRequest, UpdateRequest, signing_key_create, update_found,
  signing_key_update, after_delete, signing_key_delete,
}
use revaulter.Server.SigningKeys.Proven.{
  IsSafe, tx-Safe, answered-Safe, recorded-Safe, create_keeps,
}
use revaulter.Db.SigningKeys.Rows.{auto_store_all}
use revaulter.Db.SigningKeys.{is_replaceable, replace}
use revaulter.Server.Confirm.{
  ConfirmPublicKey, auto_store_signing_key, after_key_check, after_auto_store,
}
use revaulter.Server.Confirm as Confirm
use mathlib.Core.Path.{subst}
use revaulter.Server.SigningKeys.Published.{Kept, Fine, update_existing_safe}

found_for_user :
    (conn : Conn) (user id : Text) (t : SigningKeys) (k : SigningKey)
    → IsIndexed t
    → get_for_user conn user id t ≡ SigningKeys.ok (some k)
    → (find_id id t ≡ some k) × (k.user_id ≡ user)
found_for_user up user id t k v e = (get_for_user_exact user id t k v).0 e
found_for_user down user id t k v e =
    let x : get_for_user down user id t ≡ SigningKeys.err SigningKeys.driver =
      unfold get_for_user in refl in
    absurd (cc)

module _ (json : Objects) (codec : Codec ResponseEnvelope) (flags : Flags) (crypto : Crypto)
    (anchors : AnchorCrypto) (seen : ℕ → Accounts → Type 0) where
  update_found_safe :
      (a : Answers) (c : Context) (id : Text) (r : UpdateRequest) (t : Tables)
      (x : SigningKeys.Result (Option SigningKey))
      → seen a.check_clock t.accounts
      → Kept json flags crypto anchors seen t
      → get_for_user a.first c.user_id id t.signing_keys ≡ x
      → Kept json flags crypto anchors seen (update_found json flags crypto anchors a c id r t x).1
  update_found_safe a c id r t (SigningKeys.err e) noted v q = v
  update_found_safe a c id r t (SigningKeys.ok none) noted v q = v
  update_found_safe a c id r t (SigningKeys.ok (some k)) noted v q =
      let (f, u) = found_for_user a.first c.user_id id t.signing_keys k v.indexed q in
      update_existing_safe json flags crypto anchors seen a c id r k t noted v f u

  abbrev Ends : Answer × Tables → Type 0
  Ends x = Kept json flags crypto anchors seen x.1

  update_keeps :
      (a : Answers) (c : Context) (id : Text) (body : Option UpdateRequest) (t : Tables)
      → seen a.check_clock t.accounts
      → Kept json flags crypto anchors seen t
      → Ends (signing_key_update json flags crypto anchors a c id body t)
  unfolding signing_key_update
  update_keeps a c id none t noted v =
      if_cases Ends (is_empty c.user_id) (λ e. v)
        (λ e. if_cases Ends (is_empty id) (λ e. v) (λ e. v))
  update_keeps a c id (some r) t noted v =
      if_cases Ends (is_empty c.user_id) (λ e. v)
        (λ e.
          if_cases Ends (is_empty id) (λ e. v)
            (λ e. answered-Safe json flags crypto anchors seen Answer.updated _ (
              tx-Safe json flags crypto anchors seen a.commit t _ v
                (update_found_safe a c id r t _ noted v refl))))

  after_delete_safe :
      (a : Answers) (c : Context) (t : Tables) (r : SigningKeys.Result SigningKey × SigningKeys)
      → Kept json flags crypto anchors seen t
      → Fine json flags crypto anchors seen r.1
      → Kept json flags crypto anchors seen (after_delete json flags crypto anchors a c t r).1
  after_delete_safe a c t (SigningKeys.err e, keys) v w = v
  after_delete_safe a c t (SigningKeys.ok k, keys) v w =
      recorded-Safe json flags crypto anchors seen k (record t { signing_keys = keys }) _ w

  deleted-Fine :
      (conn : Conn) (user id : Text) (t : SigningKeys)
      → Fine json flags crypto anchors seen t
      → Fine json flags crypto anchors seen (delete_key conn user id t).1
  deleted-Fine conn user id t v = record {
    indexed = unfold Slots.step in step-IsIndexed (conn, deletes user id) t v.indexed;
    proven = delete_all _ conn user id t v.proven;
  }

  delete_keeps :
      (a : Answers) (c : Context) (id : Text) (t : Tables)
      → Kept json flags crypto anchors seen t
      → Ends (signing_key_delete json flags crypto anchors a c id t)
  unfolding signing_key_delete
  delete_keeps a c id t v =
      if_cases Ends (is_empty c.user_id) (λ e. v)
        (λ e.
          if_cases Ends (is_empty id) (λ e. v)
            (λ e.
              answered-Safe json flags crypto anchors seen (λ k. Answer.deleted) _
                (tx-Safe json flags crypto anchors seen a.commit t _ v (
                  after_delete_safe a c t _ v
                    (deleted-Fine a.first c.user_id id t.signing_keys v)))))

  -- The automatic store never touches a key with a proof, and stores none.
  auto-Fine :
      (conn : Conn) (now : ℕ) (i : InsertSigningKeyInput) (t : SigningKeys)
      → Fine json flags crypto anchors seen t
      → Fine json flags crypto anchors seen (auto_store_unpublished conn now i t).1
  unfolding has_publication_proof
  auto-Fine conn now i t v = record {
    indexed = unfold Slots.step in step-IsIndexed (conn, auto_stores now i) t v.indexed;
    proven =
        auto_store_all _ conn now i t v.indexed v.proven
          (λ p e. record {
            proof = λ n. absurd (ground arith);
            verified = λ n. absurd (ground arith);
          })
          (λ k p e. record {
            proof = λ n. absurd (ground arith);
            verified = λ n. absurd (ground arith);
          });
  }

  auto_stored :
      (a : Confirm.Answers) (c : Context) (rec : RequestRecord) (t : Tables)
      (r : SigningKeys.Result SigningKey × SigningKeys)
      → Fine json flags crypto anchors seen r.1
      → Kept json flags crypto anchors seen (after_auto_store json codec crypto a c rec t r)
  auto_stored a c rec t (SigningKeys.err e, keys) w = w
  auto_stored a c rec t (SigningKeys.ok k, keys) w = w

  auto_checked :
      (a : Confirm.Answers) (c : Context) (rec : RequestRecord) (key : ConfirmPublicKey)
      (t : Tables) (r : Result JwkError (Text × Text))
      → Kept json flags crypto anchors seen t
      → Kept json flags crypto anchors seen (after_key_check json codec crypto a c rec key t r)
  auto_checked a c rec key t (err e) v = v
  auto_checked a c rec key t (ok (id, jwk)) v =
      auto_stored a c rec t _ (auto-Fine a.store a.store_clock _ t.signing_keys v)

module _ (json : Objects) (codec : Codec ResponseEnvelope) (flags : Flags) (crypto : Crypto)
    (anchors : AnchorCrypto) where
  -- A route that writes keys: the three of a user's keys, and the store after a confirmation.
  pub data Call : Type 0 where
    creates_key : Answers → Context → Option CreateRequest → Call
    updates_key : Answers → Context → Text → Option UpdateRequest → Call
    deletes_key : Answers → Context → Text → Call
    auto_stores_key : Confirm.Answers → Context → RequestRecord → ConfirmPublicKey → Call
    -- another transaction, which leaves the keys
    others : (f : Tables → Tables) → ((t : Tables) → (f t).signing_keys ≡ t.signing_keys) → Call

  unfoldable pub perform : Call → Tables → Tables
  perform (creates_key a c body) t = (signing_key_create json flags crypto anchors a c body t).1
  perform (updates_key a c id body) t =
      (signing_key_update json flags crypto anchors a c id body t).1
  perform (deletes_key a c id) t = (signing_key_delete json flags crypto anchors a c id t).1
  perform (auto_stores_key a c rec key) t = auto_store_signing_key json codec crypto a c rec key t
  perform (others f keeps) t = f t

  unfoldable pub run : List Call → Tables → Tables
  run [] t = t
  run (x ∷ xs) t = run xs (perform x t)

  module _ (seen : ℕ → Accounts → Type 0) where
    -- The clock and the accounts of a call that may verify a proof
    abbrev pub Noted : Call → Tables → Type 0
    Noted (creates_key a c body) t = seen a.check_clock t.accounts
    Noted (updates_key a c id body) t = seen a.check_clock t.accounts
    Noted (deletes_key a c id) t = Unit
    Noted (auto_stores_key a c rec key) t = Unit
    Noted (others f keeps) t = Unit

    -- Those of every call of a history
    abbrev pub AllNoted : List Call → Tables → Type 0
    AllNoted [] t = Unit
    AllNoted (x ∷ xs) t = Noted x t × AllNoted xs (perform x t)

    perform_keeps :
        (x : Call) (t : Tables)
        → Noted x t
        → Kept json flags crypto anchors seen t
        → Kept json flags crypto anchors seen (perform x t)
    unfolding perform auto_store_signing_key
    perform_keeps (creates_key a c body) t noted v =
        create_keeps json flags crypto anchors seen a c body t noted v
    perform_keeps (updates_key a c id body) t noted v =
        update_keeps json codec flags crypto anchors seen a c id body t noted v
    perform_keeps (deletes_key a c id) t noted v =
        delete_keeps json codec flags crypto anchors seen a c id t v
    perform_keeps (auto_stores_key a c rec key) t noted v =
        auto_checked json codec flags crypto anchors seen a c rec key t _ v
    perform_keeps (others f keeps) t noted v =
        subst (Fine json flags crypto anchors seen) (sym (keeps t)) v

    -- Over any history of the routes that write signing keys, of the automatic store and of whatever
    -- leaves the keys, a key that is published has a complete proof, and every complete proof that is
    -- stored was good at a moment that was seen: its payload binds the key's user, algorithm, label
    -- and id and the owner's epoch, is at most two minutes away from that moment, and both signatures
    -- are of its text, under the anchor keys of the owner at that moment. (`seen` is any property of
    -- a clock and accounts that those of every creation and update of the history have; the keys are
    -- so at the start, with their unique indexes.)
    pub published_proven :
        (calls : List Call) (t : Tables)
        → AllNoted calls t
        → IsSafe json flags crypto anchors seen t.signing_keys
        → IsSafe json flags crypto anchors seen (run calls t).signing_keys
    unfolding run
    published_proven [] t noted v = v
    published_proven (x ∷ xs) t (n, noted) v =
        published_proven xs (perform x t) noted (perform_keeps x t n v)
