-- ===== src/Server/SigningKeys/Lines.antt =====
-- The lines of a payload that parses (internal/protocolv2/signing-key-publication.go).
use mathlib.Core.Path.{subst}
use revaulter.Base.{
  ℕ, Text, same, same_iff, split, length, ◌≡◌, refl, sym, ap, ◌∙◌, ◌++◌, inl, inr, some, List, [],
  ◌∷◌, ◌==◌, arith, Bool-cases, Option-cases,
}
use revaulter.Base.Results.{Result, ok, err}
use revaulter.Protocol.Timeouts.{atoi}
use revaulter.Protocol.Anchors.{AnchorError, cut, value_of, values_of_lines, values_of}
use revaulter.Protocol.Publication.{
  Payload, payload_keys, payload_of_values, payload_of_result, parse_payload,
}
use revaulter.Server.SigningKeys.Signed.{bind_ok}

cut_join : (sep : ℕ) (s k v : Text) → cut sep s ≡ some (k, v) → s ≡ k ++ sep ∷ v
unfolding cut
cut_join sep [] k v e = absurd (cc)
cut_join sep (c ∷ s) k v e = elim (Bool-cases (c == sep)) [
  | inl q ↦
      let x : [] ≡ k = ground arith in
      let y : s ≡ v = ground arith in let z : c ≡ sep = ground arith in rw (z, y, sym x)
  | inr q ↦ elim (Option-cases (cut sep s)) [
    | inl n ↦ absurd (ground arith)
    | inr ((k', v'), f) ↦
        let x : c ∷ k' ≡ k = ground arith in
        let y : v' ≡ v = ground arith in
        rw (sym x, sym y) (ap (λ u. c ∷ u) (cut_join sep s k' v' f))
  ]
]

line_ok : (key line v : Text) → value_of key line ≡ ok v → line ≡ key ++ b'=' ∷ v
unfolding value_of
line_ok key line v e = elim (Option-cases (cut b'=' line)) [
  | inl n ↦ absurd (ground arith)
  | inr ((k, w), f) ↦ elim (Bool-cases (same k key)) [
    | inl q ↦
        let x : w ≡ v = ground arith in
        cut_join b'=' line k w f
        ∙ ap (λ z. z ++ b'=' ∷ w) ((same_iff k key).0 q)
        ∙ ap (λ z. key ++ b'=' ∷ z) x
    | inr q ↦ absurd (ground arith)
  ]
]

-- The lines of keys and values
abbrev joined : List Text → List Text → List Text
joined [] vs = []
joined (k ∷ ks) [] = []
joined (k ∷ ks) (v ∷ vs) = (k ++ b'=' ∷ v) ∷ joined ks vs

lines_ok : (keys lines vs : List Text) → values_of_lines keys lines ≡ ok vs → lines ≡ joined keys vs
lines_ok [] [] vs e = refl
lines_ok [] (l ∷ ls) vs e = absurd (cc)
lines_ok (k ∷ ks) [] vs e = absurd (cc)
lines_ok (k ∷ ks) (l ∷ ls) vs e =
    let (v, p, e₁) = bind_ok (value_of k l) _ vs e in
    let (ws, q, e₂) = bind_ok (values_of_lines ks ls) _ vs e₁ in
    let x : v ∷ ws ≡ vs = cc in
    (λ i. line_ok k l v p i ∷ lines_ok ks ls ws q i) ∙ ap (joined (k ∷ ks)) x

body_ok :
    (keys : List Text) (body : Text) (vs : List Text)
    → values_of keys body ≡ ok vs
    → split 10 body ≡ joined keys vs
unfolding values_of
body_ok keys body vs e = elim (Bool-cases (length (split 10 body) == length keys)) [
  | inl q ↦ lines_ok keys (split 10 body) vs (sym (rw q) ∙ e)
  | inr q ↦ absurd (ground arith)
]

-- The texts of the three numbers, and the lines
abbrev pub Lines : Text → Payload → Type 0
Lines body p =
    (e : Text) × (t : Text) × (n : Text) × (split 10 body
      ≡ joined payload_keys (p.user_id ∷ p.algorithm ∷ p.key_label ∷ p.key_id ∷ e ∷ t ∷ n ∷ []))
    × (atoi e ≡ some p.wrapped_key_epoch)
    × (atoi t ≡ some p.created_at)
    × (atoi n ≡ some p.v)

values_ok :
    (body : Text) (vs : List Text) (p : Payload)
    → split 10 body ≡ joined payload_keys vs
    → payload_of_values vs ≡ some p
    → Lines body p
values_ok body (u ∷ a ∷ l ∷ k ∷ e ∷ t ∷ n ∷ []) p s q = elim (Option-cases (atoi e)) [
  | inl x ↦ absurd (ground arith)
  | inr (e', x) ↦ elim (Option-cases (atoi t)) [
    | inl y ↦ absurd (ground arith)
    | inr (t', y) ↦ elim (Option-cases (atoi n)) [
      | inl z ↦ absurd (ground arith)
      | inr (n', z) ↦
          let w : some (record {
            user_id = u;
            algorithm = a;
            key_label = l;
            key_id = k;
            wrapped_key_epoch = e';
            created_at = t';
            v = n';
          })
              ≡ some p =
            sym (rw (x, y, z, payload_of_values)) ∙ q in
          let w' : record {
            user_id = u;
            algorithm = a;
            key_label = l;
            key_id = k;
            wrapped_key_epoch = e';
            created_at = t';
            v = n';
          }
              ≡ p =
            cc in
          subst (Lines body) w' (e, t, n, s, x, y, z)
    ]
  ]
]
values_ok body _ p s q = absurd (cc)

pub parse_ok : (body : Text) (p : Payload) → parse_payload body ≡ some p → Lines body p
unfolding parse_payload
parse_ok body p e = go (values_of payload_keys body) refl e
  where
    go :
        (r : Result AnchorError (List Text))
        → values_of payload_keys body ≡ r
        → payload_of_result r ≡ some p
        → Lines body p
    go (err x) q e = absurd (cc)
    go (ok vs) q e = values_ok body vs p (body_ok payload_keys body vs q) e
