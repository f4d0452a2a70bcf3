-- ===== src/Server/Stream/Once.antt =====
-- What a stream of the list sends (internal/server/routes-api.go).
use mathlib.Core.Path.{subst}
use revaulter.Base.{
  Text, same, same_iff, ◌≡◌, inl, inr, Bool, true, false, ◌&&◌, not, List, [], ◌∷◌, All, arith,
  if◌then◌else◌, Bool-cases,
}
use revaulter.Server.State.{Notice}
use revaulter.Server.Stream.{state_of, owner_of, is_removed, has_seen, forget, is_skipped, stream}

-- Of the notices on the state, none that lists it follows another but after a removal; `shown` tells
-- whether the client has it in its list.
pub Alternates : Text → Bool → List Notice → Type 0
Alternates k shown [] = Unit
Alternates k shown (n ∷ ns) =
    (same (state_of n) k ≡ true → is_removed n ≡ false → shown ≡ false)
    × Alternates k (if same (state_of n) k then not (is_removed n) else shown) ns

has_seen-forget :
    (k s : Text) (seen : List Text)
    → has_seen k (forget s seen) ≡ (not (same s k) && has_seen k seen)
has_seen-forget k s [] = ground arith
has_seen-forget k s (x ∷ seen) =
    ground (arith, has_seen-forget k s seen, same_iff x s, same_iff s k, same_iff x k)

abbrev next_seen : List Text → Notice → List Text
next_seen seen n = if is_removed n then forget (state_of n) seen else state_of n ∷ seen

has_seen-next_seen :
    (k : Text) (seen : List Text) (n : Notice)
    → has_seen k (next_seen seen n)
      ≡ (if same (state_of n) k then not (is_removed n) else has_seen k seen)
has_seen-next_seen k seen n = ground (arith, has_seen-forget k (state_of n) seen)

-- A stream sends the notices of its own user only, and lists a request that its client already has
-- (from the list that it began with, or a notice since) never again, unless the request was removed
-- in between.
pub stream_once :
    (user k : Text) (seen : List Text) (ns : List Notice)
    → All (λ n. owner_of n ≡ user) (stream user seen ns)
      × Alternates k (has_seen k seen) (stream user seen ns)
unfolding stream Alternates
stream_once user k seen [] = (tt, tt)
stream_once user k seen (n ∷ ns) = elim (Bool-cases (is_skipped user seen n)) [
  | inl e ↦ rw e (stream_once user k seen ns)
  | inr e ↦ rw e (
      let (own, alternates) = stream_once user k (next_seen seen n) ns in
      (
        (ground (arith, same_iff (owner_of n) user), own),
        (
          λ at_k lists. ground (arith, same_iff (state_of n) k),
          subst (λ b. Alternates k b (stream user (next_seen seen n) ns))
              (has_seen-next_seen k seen n) alternates,
        ),
      ))
]
