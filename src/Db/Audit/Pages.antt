-- ===== src/Db/Audit/Pages.antt =====
-- The pages of AuditStore.List, one after another by their cursors (internal/db/audit.go).
use mathlib.Core.Option
use mathlib.Core.List.{map-append}
use revaulter.Base.{
  ℕ, zero, suc, ◌+◌, ◌<◌, ◌≤◌, inl, inr, ℤ, Text, is_empty, length, take, drop, get_elem?, ◌≡◌,
  refl, sym, ap, ◌∙◌, false, Option, none, some, List, [], ◌∷◌, ◌++◌, map, All, arith, ltb, ltb→lt,
  if◌then◌else◌, Bool-cases, text_eq,
}
use revaulter.Sql.{up, select}
use revaulter.Sql.Keyed
use revaulter.Sql.Ordered.{order_desc, select_after, length-order, length-select}
use revaulter.Db.Audit.Types.{
  AuditEvent, AuditFilter, AuditLog, Result, ok, err, id_of, matches, is_below, scan, paginate,
  validate_cursor, id_or_none,
}
use revaulter.Db.Audit.{list}
use revaulter.Db.Audit.Cut.{paginate_last, paginate_more, elem_exists}
use revaulter.Db.Audit.History.{
  IsFilter, IsV7, page_size-suc, v7_nonempty, v7_cursor, All-select, All-order, All-elem, drop_elem,
  drop-drop, take-drop, length-drop, history, from_cursor, history-Desc, below_cursor,
}

abbrev then_next :
    List AuditEvent × Text → (Text → Option (List AuditEvent)) → Option (List AuditEvent)
then_next (out, next) rest =
    if is_empty next then some out else Option.map (λ more. out ++ more) (rest next)

abbrev follow :
    Result (List AuditEvent × Text) → (Text → Option (List AuditEvent)) → Option (List AuditEvent)
follow (err e) rest = none
follow (ok page) rest = then_next page rest

-- A client that asks for page after page, until one has no next cursor; `none` if that takes more
-- requests than `fuel`, or one of them fails.
pub walk :
    (Text → Option (List ℕ)) → AuditFilter → ℤ → AuditLog → ℕ → Text → Option (List AuditEvent)
walk parse f limit t zero c = none
walk parse f limit t (suc fuel) c = follow (list parse up f limit c t) (walk parse f limit t fuel)

select_true : (l : AuditLog) → select (is_below []) l ≡ l
unfolding select
select_true [] = refl
select_true (x ∷ l) = ap (λ z. x ∷ z) (select_true l)

cursor_none : (parse : Text → Option (List ℕ)) → validate_cursor parse [] ≡ ok []
unfolding validate_cursor
cursor_none parse = refl

module _ (parse : Text → Option (List ℕ)) (parse_empty : parse [] ≡ none) where
  module _ (f : AuditFilter) (t : AuditLog) (d : Keyed.Distinct id_of t) (filter : IsFilter f)
      (ids : All (λ (r : AuditEvent). IsV7 parse r.id) t) (limit : ℤ) where
    abbrev size_less_one : ℕ
    size_less_one = (page_size-suc limit).0

    list_at :
        (k : ℕ) (c : Text)
        → select (is_below c) (history f t d) ≡ drop k (history f t d)
        → validate_cursor parse c ≡ ok c
        → list parse up f limit c t
          ≡ ok (
              paginate
                (suc size_less_one)
                (map scan (take (suc (suc size_less_one)) (drop k (history f t d)))))
    unfolding list
    list_at k c cut v = rw filter.no_conflict (
        rw filter.known_type
          (rw v (rw ((page_size-suc limit).1) (rw (from_cursor f t d c) (rw cut)))))

    ids_of_history : All (λ (r : AuditEvent). IsV7 parse r.id) (history f t d)
    ids_of_history =
        All-order (λ (r : AuditEvent). IsV7 parse r.id) (select (matches f) t)
          (All-select (λ (r : AuditEvent). IsV7 parse r.id) (matches f) t ids)

    -- The cursor of a page cuts the history after the page's last row.
    cut_after :
        (i : ℕ) (r : AuditEvent)
        → get_elem? (history f t d) i ≡ some r
        → IsV7 parse r.id
        → select (is_below r.id) (history f t d) ≡ drop (suc i) (history f t d)
    cut_after i r e v =
        below_cursor r.id (history f t d) (v7_nonempty parse parse_empty r.id v)
        ∙ select_after id_of (history f t d) i r (history-Desc f t d) e

    -- What is left at the k-th row.
    abbrev remains : ℕ → List AuditEvent
    remains k = drop k (history f t d)

    walk_last :
        (fuel k : ℕ) (c : Text)
        → select (is_below c) (history f t d) ≡ remains k
        → validate_cursor parse c ≡ ok c
        → length (remains k) ≤ suc size_less_one
        → walk parse f limit t (suc fuel) c ≡ some (map scan (remains k))
    unfolding walk
    walk_last fuel k c cut v h =
        ap (λ res. follow res (walk parse f limit t fuel)) (list_at k c cut v)
        ∙ ap (λ page. then_next page (walk parse f limit t fuel))
            (paginate_last size_less_one (remains k) h)

    walk_more :
        (fuel k : ℕ) (c : Text) (r : AuditEvent)
        → select (is_below c) (history f t d) ≡ remains k
        → validate_cursor parse c ≡ ok c
        → suc size_less_one < length (remains k)
        → get_elem? (remains k) size_less_one ≡ some r
        → is_empty r.id ≡ false
        → walk parse f limit t (suc fuel) c
          ≡ Option.map
              (λ more. map scan (take (suc size_less_one) (remains k)) ++ more)
              (walk parse f limit t fuel r.id)
    unfolding walk
    walk_more fuel k c r cut v h e n =
        ap (λ res. follow res (walk parse f limit t fuel)) (list_at k c cut v)
        ∙ ap (λ page. then_next page (walk parse f limit t fuel))
            (paginate_more size_less_one (remains k) h
              ∙ ap (λ o. (map scan (take (suc size_less_one) (remains k)), id_or_none o)) e)
        ∙ rw n

    rejoin :
        (n k : ℕ)
        → map scan (take n (remains k)) ++ map scan (remains (k + n)) ≡ map scan (remains k)
    rejoin n k =
        ap (λ z. map scan (take n (remains k)) ++ map scan z) (drop-drop k n (history f t d))
        ∙ sym (map-append scan (take n (remains k)) (drop n (remains k)))
        ∙ ap (map scan) (take-drop n (remains k))

    -- One more page, when the walk from its cursor is known.
    walk_next :
        (fuel k : ℕ) (c : Text) (r : AuditEvent)
        → select (is_below c) (history f t d) ≡ remains k
        → validate_cursor parse c ≡ ok c
        → suc size_less_one < length (remains k)
        → get_elem? (remains k) size_less_one ≡ some r
        → IsV7 parse r.id
        → walk parse f limit t fuel r.id ≡ some (map scan (remains (k + suc size_less_one)))
        → walk parse f limit t (suc fuel) c ≡ some (map scan (remains k))
    walk_next fuel k c r cut v h e v7 ih =
        walk_more fuel k c r cut v h e (v7_nonempty parse parse_empty r.id v7)
        ∙ ap (Option.map (λ more. map scan (take (suc size_less_one) (remains k)) ++ more)) ih
        ∙ ap some (rejoin (suc size_less_one) k)

    cut_here :
        (k : ℕ) (r : AuditEvent)
        → get_elem? (remains k) size_less_one ≡ some r
        → IsV7 parse r.id
        → select (is_below r.id) (history f t d) ≡ remains (k + suc size_less_one)
    cut_here k r e v7 =
        cut_after (k + size_less_one) r (sym (drop_elem k size_less_one (history f t d)) ∙ e) v7
        ∙ ap remains (let e : suc (k + size_less_one) ≡ k + suc size_less_one = omega arith in e)

    fewer :
        (k : ℕ)
        → suc size_less_one < length (remains k)
        → length (remains (k + suc size_less_one)) < length (remains k)
    fewer k h =
        rw (drop-drop k (suc size_less_one) (history f t d))
          (omega (arith, length-drop (suc size_less_one) (remains k) (omega arith)))

    id_of_row :
        (k : ℕ) (r : AuditEvent) → get_elem? (remains k) size_less_one ≡ some r → IsV7 parse r.id
    id_of_row k r e =
        All-elem (λ (x : AuditEvent). IsV7 parse x.id) (history f t d) (k + size_less_one) r
          ids_of_history (sym (drop_elem k size_less_one (history f t d)) ∙ e)

    walk_from :
        (fuel k : ℕ) (c : Text)
        → select (is_below c) (history f t d) ≡ remains k
        → validate_cursor parse c ≡ ok c
        → length (remains k) < fuel
        → walk parse f limit t fuel c ≡ some (map scan (remains k))
    walk_from zero k c cut v h = absurd (omega arith)
    walk_from (suc fuel) k c cut v h =
        elim (Bool-cases (ltb (suc size_less_one) (length (remains k)))) [
          | inr e ↦ walk_last fuel k c cut v (ground arith)
          | inl e ↦
              let long = ltb→lt (suc size_less_one) (length (remains k)) e in
              let row = elem_exists size_less_one (remains k) (omega arith) in
              let v7 = id_of_row k row.0 row.1 in
              walk_next fuel k c row.0 cut v long row.1 v7 (
                walk_from fuel (k + suc size_less_one) row.0.id (cut_here k row.0 row.1 v7)
                  (v7_cursor parse parse_empty row.0.id v7) (omega (arith, fewer k long)))
        ]

    everything : select (is_below []) (history f t d) ≡ history f t d
    everything = select_true (history f t d)

    length-history : length (history f t d) ≤ length t
    length-history =
        omega (arith, length-order id_of (select (matches f) t), length-select id_of (matches f) t)

    -- Following the cursors ends, after no more requests than the log has rows and one, and whatever
    -- the page size it gives every event that the filter lets through, once, the newest first. (Ids
    -- are distinct UUIDs of version 7, no statement fails, and nothing is written in between.)
    pub walk_complete :
        (fuel : ℕ)
        → length t < fuel
        → walk parse f limit t fuel [] ≡ some (map scan (order_desc id_of (select (matches f) t)))
    walk_complete fuel h =
        walk_from fuel zero [] everything (cursor_none parse) (omega (arith, length-history))
