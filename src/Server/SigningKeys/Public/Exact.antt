-- ===== src/Server/SigningKeys/Public/Exact.antt =====
-- Which keys RouteV2SigningKeyPublic shows, and to what file names
-- (internal/server/routes-signing-keys.go).
use mathlib.Core.Path.{subst}
use revaulter.Base.{
  Text, bytes, same, same_iff, text_eq, ◌≡◌, ◌≢◌, ◌↔◌, refl, sym, ap, ◌∙◌, ◌⊎◌, inl, inr, true,
  ◌||◌, Option, none, some, [], ◌∷◌, ◌++◌, arith, Bool-cases, nonempty_iff,
}
use revaulter.Sql.{up}
use revaulter.Db.SigningKeys.{SigningKey, IsIndexed}
use revaulter.Db.Auth.Accounts.{UserRow, find_user}
use revaulter.Db.Auth.Accounts.Lookup.{by_id-find}
use revaulter.Server.State.{Tables}
use revaulter.Server.SigningKeys.Public.{
  last_cut, Served, pem, jwk, Reads, served, signing_key_public,
}
use revaulter.Server.SigningKeys.Public.Shown.{
  IsPublic, last_cut_join, last_cut-append, gets, Shows, shows,
}

module _ (t : Tables) (indexed : IsIndexed t.signing_keys) where
  abbrev IsNamed : Text → SigningKey → Text → Text → Type 0
  IsNamed filename k a b = (filename ≡ k.id ++ b'.' ∷ a) ⊎ (filename ≡ k.id ++ b'.' ∷ b)

  is_one : (ext a b : Text) → (same ext a || same ext b) ≡ true → (ext ≡ a) ⊎ (ext ≡ b)
  is_one ext a b e = elim (Bool-cases (same ext a)) [
    | inl q ↦ inl ((same_iff ext a).0 q)
    | inr q ↦ inr ((same_iff ext b).0 (ground arith))
  ]

  named :
      (filename ext a b : Text) (k : SigningKey)
      → last_cut b'.' filename ≡ some (k.id, ext)
      → (ext ≡ a) ⊎ (ext ≡ b)
      → IsNamed filename k a b
  named filename ext a b k c (inl e) = inl (last_cut_join b'.' filename k.id ext c ∙ rw e)
  named filename ext a b k c (inr e) = inr (last_cut_join b'.' filename k.id ext c ∙ rw e)

  cut-IsNamed :
      (filename a b : Text) (k : SigningKey)
      → last_cut b'.' a ≡ none
      → last_cut b'.' b ≡ none
      → IsNamed filename k a b
      → (ext : Text) × (last_cut b'.' filename ≡ some (k.id, ext)) × ((ext ≡ a) ⊎ (ext ≡ b))
  cut-IsNamed filename a b k p q (inl e) =
      (a, ap (last_cut b'.') e ∙ last_cut-append b'.' k.id a p, inl refl)
  cut-IsNamed filename a b k p q (inr e) =
      (b, ap (last_cut b'.') e ∙ last_cut-append b'.' k.id b q, inr refl)

  serves_pem :
      (r : Reads) (k : SigningKey) (ext : Text)
      → (ext ≡ bytes "pem") ⊎ (ext ≡ bytes "pub")
      → k.id ≢ []
      → IsPublic t k
      → r.key ≡ up
      → served r t (some (k.id, ext)) ≡ pem k
  unfolding same
  serves_pem r k ext (inl e) n p u = rw (e, u, (nonempty_iff k.id).1 n, gets t indexed k p)
  serves_pem r k ext (inr e) n p u = rw (e, u, (nonempty_iff k.id).1 n, gets t indexed k p)

  serves_jwk :
      (r : Reads) (k : SigningKey) (w : UserRow) (ext : Text)
      → (ext ≡ bytes "jwk") ⊎ (ext ≡ bytes "json")
      → k.id ≢ []
      → IsPublic t k
      → find_user k.user_id t.accounts.users ≡ some w
      → r.key ≡ up
      → r.owner ≡ up
      → r.commit ≡ up
      → served r t (some (k.id, ext)) ≡ jwk k w
  unfolding same
  serves_jwk r k w ext (inl e) n p f u u' u'' = rw (
    e,
    u,
    (nonempty_iff k.id).1 n,
    gets t indexed k p,
    u',
    by_id-find k.user_id t.accounts,
    f,
    u'',
  )
  serves_jwk r k w ext (inr e) n p f u u' u'' = rw (
    e,
    u,
    (nonempty_iff k.id).1 n,
    gets t indexed k p,
    u',
    by_id-find k.user_id t.accounts,
    f,
    u'',
  )

  -- RouteV2SigningKeyPublic shows a key exactly when it is stored, published by its user and carries
  -- all three parts of a proof, and the file name is its id, which is not empty, with the extension
  -- of the form: pem or pub for the PEM; jwk or json for the key with its owner's row, which is
  -- stored. The statements that the form needs must run. (The unique indexes of the keys hold.)
  pub serving_exact :
      (r : Reads) (filename : Text) (k : SigningKey) (u : UserRow)
      → ((signing_key_public r filename t ≡ pem k) ↔ (
          IsPublic t k
          × (k.id ≢ [])
          × (r.key ≡ up)
          × ((filename ≡ k.id ++ bytes ".pem") ⊎ (filename ≡ k.id ++ bytes ".pub"))))
        × ((signing_key_public r filename t ≡ jwk k u) ↔ (
            IsPublic t k
            × (find_user k.user_id t.accounts.users ≡ some u)
            × (k.id ≢ [])
            × ((r.key ≡ up) × (r.owner ≡ up) × (r.commit ≡ up))
            × ((filename ≡ k.id ++ bytes ".jwk") ⊎ (filename ≡ k.id ++ bytes ".json"))))
  unfolding signing_key_public last_cut
  serving_exact r filename k u = (
    (
      λ e. pem_only (sym e) (shows t indexed r cut),
      λ (p, n, a, name).
          let (ext, c, x) = cut-IsNamed filename (bytes "pem") (bytes "pub") k refl refl name in
          rw c (serves_pem r k ext x n p a),
    ),
    (
      λ e. jwk_only (sym e) (shows t indexed r cut),
      λ (p, f, n, (a, b, d), name).
          let (ext, c, x) = cut-IsNamed filename (bytes "jwk") (bytes "json") k refl refl name in
          rw c (serves_jwk r k u ext x n p f a b d),
    ),
  )
    where
      cut : Option (Text × Text)
      cut = last_cut b'.' filename

      pem_only :
          {s : Served}
          → pem k ≡ s
          → Shows t indexed r cut s
          → IsPublic t k
            × (k.id ≢ [])
            × (r.key ≡ up)
            × IsNamed filename k (bytes "pem") (bytes "pub")
      pem_only e (inl q) = absurd (cc)
      pem_only e (inr (inl q)) = absurd (cc)
      pem_only e (inr (inr (k', ext, c, n, p, a, inl (q, x)))) =
          let w : k' ≡ k = ground arith in
          subst
            (λ (z : SigningKey).
              IsPublic t z
              × (z.id ≢ [])
              × (r.key ≡ up)
              × IsNamed filename z (bytes "pem") (bytes "pub"))
            w (p, n, a, named filename ext _ _ k' c (is_one ext _ _ x))
      pem_only e (inr (inr (k', ext, c, n, p, a, inr (u', q, _, _, _, _)))) = absurd (cc)

      jwk_only :
          {s : Served}
          → jwk k u ≡ s
          → Shows t indexed r cut s
          → IsPublic t k
            × (find_user k.user_id t.accounts.users ≡ some u)
            × (k.id ≢ [])
            × ((r.key ≡ up) × (r.owner ≡ up) × (r.commit ≡ up))
            × IsNamed filename k (bytes "jwk") (bytes "json")
      jwk_only e (inl q) = absurd (cc)
      jwk_only e (inr (inl q)) = absurd (cc)
      jwk_only e (inr (inr (k', ext, c, n, p, a, inl (q, x)))) = absurd (cc)
      jwk_only e (inr (inr (k', ext, c, n, p, a, inr (u', q, x, f, b, d)))) =
          let w : k' ≡ k = ground arith in
          let v : u' ≡ u = ground arith in
          subst
            (λ (z : SigningKey).
              IsPublic t z
              × (find_user z.user_id t.accounts.users ≡ some u)
              × (z.id ≢ [])
              × ((r.key ≡ up) × (r.owner ≡ up) × (r.commit ≡ up))
              × IsNamed filename z (bytes "jwk") (bytes "json"))
            w (p, f ∙ ap some v, n, (a, b, d), named filename ext _ _ k' c (is_one ext _ _ x))
