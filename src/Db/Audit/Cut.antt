-- ===== src/Db/Audit/Cut.antt =====
-- The end of AuditStore.List: how it cuts a page off the rows that it read (internal/db/audit.go).
use revaulter.Base.{
  ℕ, zero, suc, ◌≤◌, ◌<◌, length, take, get_elem?, ◌≡◌, refl, ap, some, List, [], ◌∷◌, map, arith,
}
use revaulter.Db.Audit.Types.{AuditEvent, scan, paginate, id_or_none}

pub length-map : (l : List AuditEvent) → length (map scan l) ≡ length l
length-map [] = refl
length-map (x ∷ l) = omega (arith, length-map l)

take_short : (n : ℕ) (l : List AuditEvent) → length l ≤ n → take n l ≡ l
take_short zero [] h = refl
take_short zero (x ∷ l) h = absurd (omega arith)
take_short (suc n) [] h = refl
take_short (suc n) (x ∷ l) h = ap (λ z. x ∷ z) (take_short n l (omega arith))

take_long : (n : ℕ) (l : List AuditEvent) → n ≤ length l → length (take n l) ≡ n
take_long zero l h = refl
take_long (suc n) [] h = absurd (omega arith)
take_long (suc n) (x ∷ l) h = omega (arith, take_long n l (omega arith))

take_page : (n : ℕ) (l : List AuditEvent) → take n (map scan (take (suc n) l)) ≡ map scan (take n l)
take_page zero l = refl
take_page (suc n) [] = refl
take_page (suc n) (x ∷ l) = ap (λ z. scan x ∷ z) (take_page n l)

last_of_page :
    (n : ℕ) (l : List AuditEvent)
    → id_or_none (get_elem? (map scan (take (suc (suc n)) l)) n) ≡ id_or_none (get_elem? l n)
last_of_page n [] = refl
last_of_page zero (x ∷ l) = refl
last_of_page (suc n) (x ∷ l) = last_of_page n l

pub elem_exists :
    (n : ℕ) (l : List AuditEvent) → n < length l → (r : AuditEvent) × (get_elem? l n ≡ some r)
elem_exists n [] h = absurd (omega arith)
elem_exists zero (x ∷ l) h = (x, refl)
elem_exists (suc n) (x ∷ l) h = elem_exists n l (omega arith)

-- The rows fit on one page …
pub paginate_last :
    (n : ℕ) (l : List AuditEvent)
    → length l ≤ suc n
    → paginate (suc n) (map scan (take (suc (suc n)) l)) ≡ (map scan l, [])
paginate_last n l h = rw (take_short (suc (suc n)) l (omega arith)) (ground (arith, length-map l))

-- … or there is another page, after row `n`.
pub paginate_more :
    (n : ℕ) (l : List AuditEvent)
    → suc n < length l
    → paginate (suc n) (map scan (take (suc (suc n)) l))
      ≡ (map scan (take (suc n) l), id_or_none (get_elem? l n))
paginate_more n l h = rw (← (take_page (suc n) l)) (
    rw (← (last_of_page n l))
      (ground (arith, length-map (take (suc (suc n)) l), take_long (suc (suc n)) l (omega arith))))
