-- ===== src/Db/Auth/Accounts/Sealed.antt =====
-- What the signup stored stays: the keys of a user who is ready, whatever methods run.

use revaulter.Base.{
  ℕ, ◌≤◌, Text, text_eq, same, same_iff, ◌≡◌, refl, ◌∙◌, inl, inr, Bool, true, false, ◌&&◌, none,
  some, [], ◌∷◌, ◌++◌, arith, Bool-cases,
}
use revaulter.Sql.{update, delete}
use revaulter.Sql.Keyed
use revaulter.Db.Auth.Accounts.{UserRow, Users, find_user, user_key}

-- Nothing that signing in, encrypting to the user or checking the user's anchor relies on has
-- changed, and the epoch has not gone back.
pub record Sealed (u u' : UserRow) : Type 0 where
  pub ready : u'.ready ≡ true
  pub status : u'.status ≡ u.status
  pub webauthn : u'.webauthn_user_id ≡ u.webauthn_user_id
  pub ecdh : u'.request_enc_ecdh_pubkey ≡ u.request_enc_ecdh_pubkey
  pub mlkem : u'.request_enc_mlkem_pubkey ≡ u.request_enc_mlkem_pubkey
  pub es384 : u'.anchor_es384_public_key ≡ u.anchor_es384_public_key
  pub mldsa87 : u'.anchor_mldsa87_public_key ≡ u.anchor_mldsa87_public_key
  pub bundle_es384 : u'.pubkey_bundle_signature_es384 ≡ u.pubkey_bundle_signature_es384
  pub bundle_mldsa87 : u'.pubkey_bundle_signature_mldsa87 ≡ u.pubkey_bundle_signature_mldsa87
  pub version : u'.pubkey_bundle_version ≡ u.pubkey_bundle_version
  pub epoch : u.wrapped_key_epoch ≤ u'.wrapped_key_epoch

pub Sealed-refl : (u : UserRow) → u.ready ≡ true → Sealed u u
Sealed-refl u e = record {
  ready = e;
  status = refl;
  webauthn = refl;
  ecdh = refl;
  mlkem = refl;
  es384 = refl;
  mldsa87 = refl;
  bundle_es384 = refl;
  bundle_mldsa87 = refl;
  version = refl;
  epoch = omega arith;
}

-- Its settings may change.
pub Sealed-settings :
    (u : UserRow) (name request_key ips : Text) (now : ℕ)
    → u.ready ≡ true
    → Sealed u (record u {
      display_name = name;
      request_key = request_key;
      allowed_ips = ips;
      updated_at = now;
    })
Sealed-settings u name request_key ips now r = record {
  ready = r;
  status = refl;
  webauthn = refl;
  ecdh = refl;
  mlkem = refl;
  es384 = refl;
  mldsa87 = refl;
  bundle_es384 = refl;
  bundle_mldsa87 = refl;
  version = refl;
  epoch = omega arith;
}

pub Sealed-trans : (u v w : UserRow) → Sealed u v → Sealed v w → Sealed u w
Sealed-trans u v w s t = record {
  ready = t.ready;
  status = t.status ∙ s.status;
  webauthn = t.webauthn ∙ s.webauthn;
  ecdh = t.ecdh ∙ s.ecdh;
  mlkem = t.mlkem ∙ s.mlkem;
  es384 = t.es384 ∙ s.es384;
  mldsa87 = t.mldsa87 ∙ s.mldsa87;
  bundle_es384 = t.bundle_es384 ∙ s.bundle_es384;
  bundle_mldsa87 = t.bundle_mldsa87 ∙ s.bundle_mldsa87;
  version = t.version ∙ s.version;
  epoch = omega (arith, s.epoch, t.epoch);
}

-- What a method does to the users: nothing, it adds one, it changes the one of an id (and if that
-- one is ready, keeps it sealed), or it deletes the one of an id, which is not ready.
pub data Touch (us us' : Users) : Type 0 where
  kept : us' ≡ us → Touch us us'
  added : (u : UserRow) → find_user u.id us ≡ none → us' ≡ us ++ u ∷ [] → Touch us us'
  changed :
      (id : Text) (p : UserRow → Bool) (f : UserRow → UserRow)
      → ((u : UserRow) → (f u).id ≡ u.id)
      → ((u : UserRow) → p u ≡ true → u.ready ≡ true → Sealed u (f u))
      → us' ≡ update (λ u. same u.id id && p u) f us
      → Touch us us'
  removed :
      (id : Text) (p : UserRow → Bool)
      → ((u : UserRow) → p u ≡ true → u.ready ≡ false)
      → us' ≡ delete (λ u. same u.id id && p u) us
      → Touch us us'

pub Touch-Distinct :
    (us us' : Users) → Touch us us' → Keyed.Distinct user_key us → Keyed.Distinct user_key us'
Touch-Distinct us us' (kept e) d = rw e d
Touch-Distinct us us' (added u n e) d = rw e (Keyed.Distinct-append user_key us u n d)
Touch-Distinct us us' (changed id p f keeps seals e) d =
    rw e (Keyed.Distinct-update user_key _ f keeps us d)
Touch-Distinct us us' (removed id p over e) d = rw e (Keyed.Distinct-delete user_key _ us d)

-- The user of an id, as it was or sealed since.
abbrev pub Kept : Text → UserRow → Users → Type 0
Kept id u us = (u' : UserRow) × (find_user id us ≡ some u') × Sealed u u'

pub Touch-Kept :
    (us us' : Users) (id : Text) (u : UserRow)
    → Touch us us'
    → Keyed.Distinct user_key us
    → find_user id us ≡ some u
    → u.ready ≡ true
    → Kept id u us'
Touch-Kept us us' id u (kept e) d q r = (u, rw e q, Sealed-refl u r)
Touch-Kept us us' id u (added x n e) d q r = (u, rw e there, Sealed-refl u r)
  where
    there : find_user id (us ++ x ∷ []) ≡ some u
    there = Keyed.find-append_fresh user_key id us x n ∙ ground (arith, same_iff x.id id)
Touch-Kept us us' id u (changed s p f keeps seals e) d q r =
    elim (Bool-cases (same u.id s && p u)) [
      | inl hit ↦ (
        f u,
        rw e (Keyed.find-update user_key _ f keeps id us ∙ rw (q, hit)),
        seals u (ground arith) r,
      )
      | inr miss ↦
          (u, rw e (Keyed.find-update user_key _ f keeps id us ∙ rw (q, miss)), Sealed-refl u r)
    ]
Touch-Kept us us' id u (removed s p over e) d q r =
    let miss : (same u.id s && p u) ≡ false = ground (arith, over u) in
    (u, rw e (Keyed.find-delete user_key _ id us d ∙ rw (q, miss)), Sealed-refl u r)
