-- ===== src/Db/Auth/AllowedIps/Sample.antt =====
-- A parser for the tests: it knows one address, written in two ways, and one network.
use mathlib.Core.Path.{subst}
use revaulter.Base.{
  Text, bytes, same, ◌≡◌, refl, sym, ap, ◌∙◌, true, false, Option, none, some, arith, Word,
  Bool-cases, inl, inr, if◌then◌else◌,
}
use revaulter.Db.Auth.AllowedIps.{
  Net, Result, IpError, invalid_ip, invalid_cidr, ok, err, canonical, has_slash,
}
use revaulter.Db.Auth.AllowedIps.Normal.{Prints}

abbrev pub lookup : Text → Text → Text → Text → Option Text
lookup a b c s = if same s a then some c else if same s b then some c else none

abbrev pub sample_net : Net
sample_net = record {
  parse_ip = lookup (bytes "::1") (bytes "0:0::1") (bytes "::1");
  parse_cidr = lookup (bytes "10.0.0.0/8") (bytes "10.1.2.3/8") (bytes "10.0.0.0/8");
}

address-Word : Word 44 (bytes "::1")
address-Word = record {
  ink = (refl, (refl, (refl, tt)));
  whole = (refl, (refl, (refl, tt)));
  something = λ e. cc;
}

network-Word : Word 44 (bytes "10.0.0.0/8")
network-Word = record {
  ink = (refl, (refl, (refl, (refl, (refl, (refl, (refl, (refl, (refl, (refl, tt))))))))));
  whole = (refl, (refl, (refl, (refl, (refl, (refl, (refl, (refl, (refl, (refl, tt))))))))));
  something = λ e. cc;
}

pub known : (a b c s d : Text) → lookup a b c s ≡ some d → c ≡ d
known a b c s d e = elim (Bool-cases (same s a)) [
  | inl q ↦ ground arith
  | inr q ↦ elim (Bool-cases (same s b)) [ inl r ↦ ground arith | inr r ↦ absurd (ground arith) ]
]

pub sample-Prints : Prints sample_net
sample-Prints = record {
  ip = λ s c e.
      subst (Word 44) (known (bytes "::1") (bytes "0:0::1") (bytes "::1") s c e) address-Word;
  cidr = λ s c e.
      subst (Word 44) (known (bytes "10.0.0.0/8") (bytes "10.1.2.3/8") (bytes "10.0.0.0/8") s c e)
        network-Word;
}

net_cases :
    (o : Option Text) (e : IpError) (c : Text)
    → elim o as (λ _. Result Text) [ none ↦ err e | some d ↦ ok d ] ≡ ok c
    → o ≡ some c
net_cases none e c q = cc
net_cases (some d) e c q = ap some (inj q)
  where
    inj : ok d ≡ ok c → d ≡ c
    inj x = cc

pub sample-settles : (s c : Text) → canonical sample_net s ≡ ok c → canonical sample_net c ≡ ok c
unfolding same
sample-settles s c e = elim (Bool-cases (has_slash s)) [
  | inl q ↦ network (
      known (bytes "10.0.0.0/8") (bytes "10.1.2.3/8") (bytes "10.0.0.0/8") s c
        (net_cases _ (invalid_cidr s) c (with_slash q)))
  | inr q ↦ address (
      known (bytes "::1") (bytes "0:0::1") (bytes "::1") s c
        (net_cases _ (invalid_ip s) c (without_slash q)))
]
  where
    with_slash :
        has_slash s ≡ true
        → elim (sample_net.parse_cidr s) as (λ _. Result Text) [
          | none ↦ err (invalid_cidr s)
          | some d ↦ ok d
        ]
          ≡ ok c
    with_slash q =
        ap
          (λ b.
            if b
            then elim (sample_net.parse_cidr s) as (λ _. Result Text) [
              | none ↦ err (invalid_cidr s)
              | some d ↦ ok d
            ]
            else elim (sample_net.parse_ip s) as (λ _. Result Text) [
              | none ↦ err (invalid_ip s)
              | some d ↦ ok d
            ])
          (sym q)
        ∙ e

    without_slash :
        has_slash s ≡ false
        → elim (sample_net.parse_ip s) as (λ _. Result Text) [
          | none ↦ err (invalid_ip s)
          | some d ↦ ok d
        ]
          ≡ ok c
    without_slash q =
        ap
          (λ b.
            if b
            then elim (sample_net.parse_cidr s) as (λ _. Result Text) [
              | none ↦ err (invalid_cidr s)
              | some d ↦ ok d
            ]
            else elim (sample_net.parse_ip s) as (λ _. Result Text) [
              | none ↦ err (invalid_ip s)
              | some d ↦ ok d
            ])
          (sym q)
        ∙ e

    network : bytes "10.0.0.0/8" ≡ c → canonical sample_net c ≡ ok c
    network q = subst (λ x. canonical sample_net x ≡ ok x) q refl

    address : bytes "::1" ≡ c → canonical sample_net c ≡ ok c
    address q = subst (λ x. canonical sample_net x ≡ ok x) q refl
