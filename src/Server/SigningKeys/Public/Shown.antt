-- ===== src/Server/SigningKeys/Public/Shown.antt =====
-- What RouteV2SigningKeyPublic shows, by the parts of the file name
-- (internal/server/routes-signing-keys.go).

use revaulter.Base.{
  ℕ, Text, is_empty, text_eq, ◌≡◌, ◌≢◌, refl, sym, ap, ◌∙◌, ◌⊎◌, inl, inr, true, false, ◌||◌,
  Option, none, some, [], ◌∷◌, ◌++◌, ◌==◌, arith, Bool-cases, Option-cases, if_cases, nonempty_iff,
}
use revaulter.Sql.{Conn, up, down}
use revaulter.Sql.Keyed
use revaulter.Db.SigningKeys
use revaulter.Db.SigningKeys.{
  SigningKey, SigningKeys, IsIndexed, id_of, find_id, get_published_by_id, has_publication_proof,
}
use revaulter.Db.SigningKeys.Access.{get_published_by_id_exact}
use revaulter.Db.Auth.Types as Auth
use revaulter.Db.Auth.Accounts.{UserRow, by_id, get_user, find_user}
use revaulter.Db.Auth.Accounts.Lookup.{got_user}
use revaulter.Server.State.{Tables, execute_in_transaction}
use revaulter.Server.SigningKeys.Public.{
  last_cut, Served, absent, broken, pem, jwk, Reads, pem_of, with_owner, public_data, jwk_of,
  is_pem, is_jwk, served,
}

pub last_cut_join : (sep : ℕ) (s a b : Text) → last_cut sep s ≡ some (a, b) → s ≡ a ++ sep ∷ b
unfolding last_cut
last_cut_join sep [] a b e = absurd (cc)
last_cut_join sep (c ∷ s) a b e = elim (Option-cases (last_cut sep s)) [
  | inl n ↦ elim (Bool-cases (c == sep)) [
    | inl q ↦
        let x : [] ≡ a = ground arith in
        let y : s ≡ b = ground arith in let z : c ≡ sep = ground arith in rw (z, y, sym x)
    | inr q ↦ absurd (ground arith)
  ]
  | inr ((a', b'), q) ↦
      let x : c ∷ a' ≡ a = ground arith in
      let y : b' ≡ b = ground arith in
      rw (sym x, sym y) (ap (λ u. c ∷ u) (last_cut_join sep s a' b' q))
]

pub last_cut-append :
    (sep : ℕ) (a b : Text) → last_cut sep b ≡ none → last_cut sep (a ++ sep ∷ b) ≡ some (a, b)
unfolding last_cut
last_cut-append sep [] b e = rw e (ground arith)
last_cut-append sep (c ∷ a) b e = rw (last_cut-append sep a b e)

-- A key that may be shown: it is stored, its user has published it, and all three parts of its proof
-- are there.
pub record IsPublic (t : Tables) (k : SigningKey) : Type 0 where
  pub stored : find_id k.id t.signing_keys ≡ some k
  pub published : k.published ≡ true
  pub payload : k.publication_payload ≢ []
  pub es384 : k.publication_signature_es384 ≢ []
  pub mldsa87 : k.publication_signature_mldsa87 ≢ []

module _ (t : Tables) (indexed : IsIndexed t.signing_keys) where
  got :
      (conn : Conn) (id : Text) (k : SigningKey)
      → get_published_by_id conn id t.signing_keys ≡ SigningKeys.ok (some k)
      → (conn ≡ up) × (k.id ≡ id) × IsPublic t k
  got down id k e =
      let x : get_published_by_id down id t.signing_keys ≡ SigningKeys.err SigningKeys.driver =
        unfold get_published_by_id in refl in
      absurd (cc)
  got up id k e =
      let (f, p, n₁, n₂, n₃) = (get_published_by_id_exact id t.signing_keys k indexed).0 e in
      let own = Keyed.find-key id_of id t.signing_keys k f in
      (
        refl,
        own,
        record {
          stored = ap (λ i. find_id i t.signing_keys) own ∙ f;
          published = p;
          payload = n₁;
          es384 = n₂;
          mldsa87 = n₃;
        },
      )

  pub gets :
      (k : SigningKey)
      → IsPublic t k
      → get_published_by_id up k.id t.signing_keys ≡ SigningKeys.ok (some k)
  gets k p =
      (get_published_by_id_exact k.id t.signing_keys k indexed).1
        (p.stored, p.published, p.payload, p.es384, p.mldsa87)

  -- What a name with the extension of a JWK is answered with
  abbrev JwkOutcome : Reads → SigningKeys.Result (Option SigningKey) → Served → Type 0
  JwkOutcome r x s =
      (s ≡ absent)
      ⊎ (s ≡ broken)
      ⊎ ((k : SigningKey) × (u : UserRow) × (s ≡ jwk k u)
          × (x ≡ SigningKeys.ok (some k))
          × (get_user r.owner by_id k.user_id t.accounts ≡ Auth.ok (some u))
          × (r.commit ≡ up))

  jwk_cases :
      (r : Reads) (x : SigningKeys.Result (Option SigningKey))
      → JwkOutcome r x (jwk_of (execute_in_transaction r.commit broken t (public_data r t x, t)))
  jwk_cases r (SigningKeys.err e) = inr (inl refl)
  jwk_cases r (SigningKeys.ok none) = inl refl
  jwk_cases r (SigningKeys.ok (some k)) =
      owned r.commit (get_user r.owner by_id k.user_id t.accounts) refl refl
    where
      owned :
          (commit : Conn) (o : Auth.Result (Option UserRow))
          → get_user r.owner by_id k.user_id t.accounts ≡ o
          → r.commit ≡ commit
          → JwkOutcome r
              (SigningKeys.ok (some k))
              (jwk_of (execute_in_transaction commit broken t (with_owner k o, t)))
      owned commit (Auth.err e) g c = inr (inl refl)
      owned commit (Auth.ok none) g c = inl refl
      owned up (Auth.ok (some u)) g c = inr (inr (k, u, refl, refl, g, c))
      owned down (Auth.ok (some u)) g c = inr (inl refl)

  abbrev PemOutcome : Reads → Text → Text → SigningKeys.Result (Option SigningKey) → Served → Type 0
  PemOutcome r id ext x s =
      (s ≡ absent) ⊎ (s ≡ broken) ⊎ ((k : SigningKey) × (s ≡ pem k) × (x ≡ SigningKeys.ok (some k)))

  pem_cases :
      (r : Reads) (id ext : Text) (x : SigningKeys.Result (Option SigningKey))
      → PemOutcome r id ext x (pem_of x)
  pem_cases r id ext (SigningKeys.err e) = inr (inl refl)
  pem_cases r id ext (SigningKeys.ok none) = inl refl
  pem_cases r id ext (SigningKeys.ok (some k)) = inr (inr (k, refl, refl))

  -- What is served, by the parts of the file name
  abbrev pub Shows : Reads → Option (Text × Text) → Served → Type 0
  Shows r o s =
      (s ≡ absent)
      ⊎ (s ≡ broken)
      ⊎ ((k : SigningKey) × (ext : Text) × (o ≡ some (k.id, ext))
          × (k.id ≢ [])
          × IsPublic t k
          × (r.key ≡ up)
          × (((s ≡ pem k) × (is_pem ext ≡ true))
              ⊎ ((u : UserRow) × (s ≡ jwk k u)
                  × (is_jwk ext ≡ true)
                  × (find_user k.user_id t.accounts.users ≡ some u)
                  × (r.owner ≡ up)
                  × (r.commit ≡ up))))

  pub shows : (r : Reads) (o : Option (Text × Text)) → Shows r o (served r t o)
  shows r none = inl refl
  shows r (some (id, ext)) =
      if_cases (Shows r (some (id, ext))) (is_empty id || is_empty ext) (λ e. inl refl)
        (λ e.
          if_cases (Shows r (some (id, ext))) (is_jwk ext)
            (λ j. of_jwk j (nonempty e) (jwk_cases r (get_published_by_id r.key id t.signing_keys)))
            (λ e'.
              if_cases (Shows r (some (id, ext))) (is_pem ext)
                (λ p.
                  of_pem p (nonempty e)
                    (pem_cases r id ext (get_published_by_id r.key id t.signing_keys)))
                (λ e''. inl refl)))
    where
      nonempty : (is_empty id || is_empty ext) ≡ false → id ≢ []
      nonempty e = (nonempty_iff id).0 (ground arith)

      of_jwk :
          {s : Served}
          → is_jwk ext ≡ true
          → id ≢ []
          → JwkOutcome r (get_published_by_id r.key id t.signing_keys) s
          → Shows r (some (id, ext)) s
      of_jwk j n (inl e) = inl e
      of_jwk j n (inr (inl e)) = inr (inl e)
      of_jwk j n (inr (inr (k, u, e, q, g, c))) =
          let (a, own, p) = got r.key id k q in
          let (b, f) = got_user r.owner k.user_id t.accounts u g in
          inr (inr (k, ext, rw own, λ z. n (sym own ∙ z), p, a, inr (u, e, j, f, b, c)))

      of_pem :
          {s : Served}
          → is_pem ext ≡ true
          → id ≢ []
          → PemOutcome r id ext (get_published_by_id r.key id t.signing_keys) s
          → Shows r (some (id, ext)) s
      of_pem p n (inl e) = inl e
      of_pem p n (inr (inl e)) = inr (inl e)
      of_pem p n (inr (inr (k, e, q))) =
          let (a, own, w) = got r.key id k q in
          inr (inr (k, ext, rw own, λ z. n (sym own ∙ z), w, a, inl (e, p)))
