-- ===== src/Server/Middleware/Keyed.antt =====
-- Who passes MiddlewareRequestKey (internal/server/middleware-auth.go), and what its header and its
-- allowlist (util-ipallowlist.go) mean.
use mathlib.Core.Path.{subst}
use revaulter.Base.{
  ℕ, zero, suc, ◌+◌, Text, bytes, same, same_iff, is_empty, nonempty_iff, length, length-append,
  take, drop, ◌≡◌, ◌≢◌, ◌↔◌, ◌<◌, ◌∙◌, ◌⊎◌, ◌++◌, refl, sym, ap, inl, inr, true, false, ◌&&◌,
  Option, none, some, List, [], ◌∷◌, Has, here, there, arith, ltb, Bool-cases,
}
use revaulter.Sql.{Conn, up, down, select, first}
use revaulter.Db.Auth.Types as Auth
use revaulter.Db.Auth.Accounts.{Accounts, UserRow, by_request_key, get_user}
use revaulter.Db.Auth.AllowedIps.{parse_allowed_ips_csv}
use revaulter.Server.AuditTrail.{Context}
use revaulter.Server.Middleware.{
  fold, passed, get_bearer_token, Addresses, is_match, any_match, client_ip_allowed, with_user,
  middleware_request_key,
}

-- The header is `bearer` in any case, a space and the key, which is not empty.
pub record IsBearer (header key : Text) : Type 0 where
  pub prefix : Text
  pub prefix_length : length prefix ≡ 7
  pub is_header : header ≡ prefix ++ key
  pub is_prefix : fold prefix ≡ bytes "bearer "
  pub some_key : key ≢ []

take-drop : (n : ℕ) (s : Text) → s ≡ take n s ++ drop n s
take-drop zero s = refl
take-drop (suc n) [] = refl
take-drop (suc n) (x ∷ s) = ap (λ z. x ∷ z) (take-drop n s)

take_exact : (p k : Text) → (take (length p) (p ++ k) ≡ p) × (drop (length p) (p ++ k) ≡ k)
take_exact [] k = (refl, refl)
take_exact (x ∷ p) k = let (t, d) = take_exact p k in (ap (λ z. x ∷ z) t, d)

length-take : (n : ℕ) (s : Text) → n < length s → length (take n s) ≡ n
length-take zero s p = refl
length-take (suc n) [] p = absurd (omega (arith, p))
length-take (suc n) (x ∷ s) p = ap suc (length-take n s (omega (arith, p)))

bearer :
    (header key : Text) → get_bearer_token header ≡ key → is_empty key ≡ false → IsBearer header key
unfolding get_bearer_token
bearer header key e n =
    elim (Bool-cases (ltb 7 (length header) && same (fold (take 7 header)) (bytes "bearer "))) [
      | inl q ↦
          let long : 7 < length header = ground arith in
          let rest : drop 7 header ≡ key = ground arith in
          record {
            prefix = take 7 header;
            prefix_length = length-take 7 header long;
            is_header = take-drop 7 header ∙ ap (λ z. take 7 header ++ z) rest;
            is_prefix = (same_iff (fold (take 7 header)) (bytes "bearer ")).0 (ground arith);
            some_key = (nonempty_iff key).0 n;
          }
      | inr q ↦ absurd (ground arith)
    ]

bearer_back : (header key : Text) → IsBearer header key → get_bearer_token header ≡ key
unfolding get_bearer_token
bearer_back header key b =
    let (t, d) = take_exact b.prefix key in
    let t' : take 7 header ≡ b.prefix =
      rw b.is_header (ap (λ n. take n (b.prefix ++ key)) (sym b.prefix_length) ∙ t) in
    let d' : drop 7 header ≡ key =
      rw b.is_header (ap (λ n. drop n (b.prefix ++ key)) (sym b.prefix_length) ∙ d) in
    let long : ltb 7 (length header) ≡ true =
      longer key b.some_key (ap length b.is_header ∙ length-append b.prefix key) in
    let start : same (fold (take 7 header)) (bytes "bearer ") ≡ true =
      (same_iff _ _).1 (ap fold t' ∙ b.is_prefix) in
    rw (long, start) d'
  where
    longer :
        (k : Text)
        → k ≢ []
        → length header ≡ length b.prefix + length k
        → ltb 7 (length header) ≡ true
    longer [] n e = absurd (n refl)
    longer (x ∷ k) n e = let l = b.prefix_length in ground arith

-- An entry covers an address that is in its network, or is the address that it is.
abbrev pub Covers : Addresses → Text → Text → Type 0
Covers net ip entry =
    ((net.is_network entry ≡ true) × (net.contains entry ip ≡ true))
    ⊎ ((net.is_network entry ≡ false) × (net.is_ip entry ≡ true) × (net.is_equal entry ip ≡ true))

-- There is no allowlist, or the address is one, and some entry covers it.
abbrev pub Allows : Addresses → Text → List Text → Type 0
Allows net ip entries =
    (entries ≡ [])
    ⊎ ((net.is_ip ip ≡ true) × (entry : Text) × Has entry entries × Covers net ip entry)

match_iff :
    (net : Addresses) (ip entry : Text) → (is_match net ip entry ≡ true) ↔ Covers net ip entry
match_iff net ip entry = (
  λ e. elim (Bool-cases (net.is_network entry)) [
    | inl q ↦ inl (q, ground arith)
    | inr q ↦ inr (q, ground arith, ground arith)
  ],
  λ c. elim c [ inl (p, q) ↦ ground arith | inr (p, q, r) ↦ ground arith ],
)

any_iff :
    (net : Addresses) (ip : Text) (entries : List Text)
    → (any_match net ip entries ≡ true) ↔ ((entry : Text) × Has entry entries × Covers net ip entry)
any_iff net ip [] = (λ e. absurd (cc), λ (entry, h, c). no entry h)
  where
    no : (entry : Text) → Has entry [] → false ≡ true
    no entry h = elim h [ ]
any_iff net ip (x ∷ xs) = (
  λ e. elim (Bool-cases (is_match net ip x)) [
    | inl q ↦ (x, here refl, (match_iff net ip x).0 q)
    | inr q ↦ let (entry, h, c) = (any_iff net ip xs).0 (sym (rw q) ∙ e) in (entry, there h, c)
  ],
  λ (entry, h, c). back (λ y h' c'. (any_iff net ip xs).1 (y, h', c')) entry h c,
)
  where
    back :
        ((y : Text) → Has y xs → Covers net ip y → any_match net ip xs ≡ true)
        → (entry : Text) → Has entry (x ∷ xs)
        → Covers net ip entry
        → any_match net ip (x ∷ xs) ≡ true
    back rest entry (here e) c = rw ((match_iff net ip x).1 (subst (Covers net ip) (sym e) c))
    back rest entry (there h) c = let m = rest entry h c in ground arith

allowed_iff :
    (net : Addresses) (ip : Text) (entries : List Text)
    → (client_ip_allowed net ip entries ≡ true) ↔ Allows net ip entries
unfolding client_ip_allowed
allowed_iff net ip [] = (λ e. inl refl, λ e. refl)
allowed_iff net ip (x ∷ xs) = (
  λ e.
      let (entry, h, c) = (any_iff net ip (x ∷ xs)).0 (ground arith) in
      inr (ground arith, entry, h, c),
  λ a. elim a [
    | inl e ↦ absurd (cc)
    | inr (i, entry, h, c) ↦ let m = (any_iff net ip (x ∷ xs)).1 (entry, h, c) in ground arith
  ],
)

first_selected :
    (key : Text) (us : List UserRow) (u : UserRow)
    → first (select (λ (x : UserRow). same x.request_key key) us) ≡ some u
    → Has u us × (u.request_key ≡ key)
unfolding first select
first_selected key [] u e = absurd (cc)
first_selected key (x ∷ us) u e = elim (Bool-cases (same x.request_key key)) [
  | inl q ↦
      let x_is_u : x ≡ u = ground arith in (here x_is_u, ground (arith, same_iff x.request_key key))
  | inr q ↦ let (h, k) = first_selected key us u (sym (rw q) ∙ e) in (there h, k)
]

some_selected :
    (key : Text) (us : List UserRow) (u : UserRow)
    → Has u us
    → u.request_key ≡ key
    → (x : UserRow) × (first (select (λ (x : UserRow). same x.request_key key) us) ≡ some x)
unfolding first select
some_selected key [] u h k = elim h [ ]
some_selected key (y ∷ us) u (here e) k =
    let q : same y.request_key key ≡ true =
      (same_iff y.request_key key).1 (ap (λ (z : UserRow). z.request_key) e ∙ k) in
    (y, rw q)
some_selected key (y ∷ us) u (there h) k = elim (Bool-cases (same y.request_key key)) [
  | inl q ↦ (y, rw q)
  | inr q ↦ let (x, f) = some_selected key us u h k in (x, rw q f)
]

found_keyed :
    (conn : Conn) (key : Text) (a : Accounts) (u : UserRow)
    → get_user conn by_request_key key a ≡ Auth.ok (some u)
    → (conn ≡ up) × Has u a.users × (u.request_key ≡ key)
unfolding get_user
found_keyed down key a u e = absurd (cc)
found_keyed up key a u e = let (h, k) = first_selected key a.users u (ground arith) in (refl, h, k)

-- A request key is one user's, as the unique index on it says.
abbrev pub OneEach : Accounts → Type 0
OneEach a = (u v : UserRow) → Has u a.users → Has v a.users → u.request_key ≡ v.request_key → u ≡ v

-- The row of the user who may pass with a key from an address
pub record MayPass (net : Addresses) (key ip : Text) (a : Accounts) (u : UserRow) : Type 0 where
  pub stored : Has u a.users
  pub keyed : u.request_key ≡ key
  pub active : u.status ≡ bytes "active"
  pub ready : u.ready ≡ true
  pub allowed : Allows net ip (parse_allowed_ips_csv u.allowed_ips)

module _ (net : Addresses) (a : Accounts) (one_each : OneEach a) where
  finds :
      (key ip : Text) (u : UserRow)
      → MayPass net key ip a u
      → get_user up by_request_key key a ≡ Auth.ok (some u)
  unfolding get_user
  finds key ip u m =
      let (x, f) = some_selected key a.users u m.stored m.keyed in
      let (h, k) = first_selected key a.users x f in
      ap Auth.ok (f ∙ ap some (one_each x u h m.stored (k ∙ sym m.keyed)))

  user_passes :
      (conn : Conn) (key : Text) (c c' : Context) (x : Auth.Result (Option UserRow))
      → get_user conn by_request_key key a ≡ x
      → with_user net c x ≡ passed c'
      → (conn ≡ up)
        × (u : UserRow) × MayPass net key c.client_ip a u
        × (c' ≡ record c { request_user = some u })
  user_passes conn key c c' (Auth.err e) g p = absurd (cc)
  user_passes conn key c c' (Auth.ok none) g p = absurd (cc)
  user_passes conn key c c' (Auth.ok (some u)) g p =
      let (run, found, k) = found_keyed conn key a u g in
      (
        run,
        u,
        record {
          stored = found;
          keyed = k;
          active = ground (arith, same_iff u.status (bytes "active"));
          ready = ground arith;
          allowed =
              (allowed_iff net c.client_ip (parse_allowed_ips_csv u.allowed_ips)).0 (ground arith);
        },
        ground arith,
      )

  passes :
      (key : Text) (c : Context) (u : UserRow)
      → MayPass net key c.client_ip a u
      → with_user net c (Auth.ok (some u)) ≡ passed (record c { request_user = some u })
  passes key c u m =
      let allowed =
        (allowed_iff net c.client_ip (parse_allowed_ips_csv u.allowed_ips)).1 m.allowed in
      let active = (same_iff u.status (bytes "active")).1 m.active in rw (active, m.ready, allowed)

  -- MiddlewareRequestKey lets a request through exactly when its header is a bearer's with a key that
  -- is not empty, the lookup runs, and a stored user has that key, is active and ready, and has no
  -- allowlist or one with an entry that is the client's address or a network with it; the context
  -- gets that user's row, and all else of it is as before. (A request key is one user's.)
  pub request_key_exact :
      (conn : Conn) (header : Text) (c c' : Context)
      → (middleware_request_key net conn header a c ≡ passed c') ↔ (
          (conn ≡ up)
          × (key : Text) × IsBearer header key
          × (u : UserRow) × MayPass net key c.client_ip a u
          × (c' ≡ record c { request_user = some u }))
  unfolding middleware_request_key
  request_key_exact conn header c c' = (forth, λ (run, key, b, u, m, e). back run key b u m e)
    where
      forth :
          middleware_request_key net conn header a c ≡ passed c'
          → (conn ≡ up)
            × (key : Text) × IsBearer header key
            × (u : UserRow) × MayPass net key c.client_ip a u
            × (c' ≡ record c { request_user = some u })
      forth p = elim (Bool-cases (is_empty (get_bearer_token header))) [
        | inl e ↦ absurd (ground arith)
        | inr e ↦
            let key = get_bearer_token header in
            let (run, u, m, q) =
              user_passes conn key c c' (get_user conn by_request_key key a) refl
                (sym (rw e) ∙ p) in
            (run, key, bearer header key refl e, u, m, q)
      ]

      back :
          conn ≡ up
          → (key : Text) → IsBearer header key
          → (u : UserRow) → MayPass net key c.client_ip a u
          → c' ≡ record c { request_user = some u }
          → middleware_request_key net conn header a c ≡ passed c'
      back run key b u m e =
          let n = (nonempty_iff key).1 b.some_key in
          rw (bearer_back header key b, n, run, finds key c.client_ip u m)
            (passes key c u m ∙ ap passed (sym e))
