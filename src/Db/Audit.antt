-- ===== src/Db/Audit.antt =====
-- internal/db/audit.go: the table v2_audit_events and the methods of AuditStore.
mod Types
pub mod Pages
mod History
mod Cut
pub mod Records
pub mod Stored
mod Tests
unfoldable pub use Types.{validate, is_auth_method, is_event_type, is_outcome}
pub use Types.*
use mathlib.Core.Option
use revaulter.Base.{
  ℕ, suc, ℤ, Text, is_empty, text_eq, Bool, true, false, ◌&&◌, not, Option, none, some, List, map,
  take, ltb, if◌then◌else◌,
}
use revaulter.Sql.{Conn, up, down, select, delete, count}
use revaulter.Sql.Keyed
use revaulter.Sql.Ordered.{order_desc}

-- What Insert does after validating, with the id of uuid.NewV7 and the time in seconds.
abbrev pub insert_valid :
    Conn → Text → ℕ → Result AuditEventInput → AuditLog → Result AuditEvent × AuditLog
insert_valid c id now (err e) t = (err e, t)
insert_valid down id now (ok i) t = (err driver, t)
insert_valid up id now (ok i) t = elim (Keyed.insert id_of (event_of id now i) t) [
  | none ↦ (err driver, t)
  | some t' ↦ (ok (event_of id now i), t')
]

-- Insert
unfoldable pub insert :
    (Text → Bool) → Conn → Text → ℕ → AuditEventInput → AuditLog → Result AuditEvent × AuditLog
insert json_valid c id now i t = insert_valid c id now (validate json_valid i) t

-- The query of List: one row more than the page holds.
abbrev pub query : ℕ → AuditFilter → Text → AuditLog → List AuditEvent
query n f cursor t =
    map scan (take (suc n) (order_desc id_of (select (λ r. matches f r && is_below cursor r) t)))

abbrev pub list_after :
    Conn → ℕ → AuditFilter → Result Text → AuditLog → Result (List AuditEvent × Text)
list_after c n f (err e) t = err e
list_after down n f (ok cursor) t = err driver
list_after up n f (ok cursor) t = ok (paginate n (query n f cursor t))

-- List
unfoldable pub list :
    (Text → Option (List ℕ))
    → Conn
    → AuditFilter
    → ℤ
    → Text
    → AuditLog
    → Result (List AuditEvent × Text)
list parse c f limit cursor t =
    if not (is_empty f.user_id) && f.system
    then err filter_conflict
    else if not (is_empty f.event_type) && not (is_event_type f.event_type)
    then err invalid_event_type
    else list_after c (page_size limit) f (validate_cursor parse cursor) t

-- PruneBefore: the number of rows that it removed
unfoldable pub prune_before : Conn → ℕ → AuditLog → Result ℕ × AuditLog
prune_before down before t = (err driver, t)
prune_before up before t =
    let old = λ (r : AuditEvent). ltb r.created_at before in (ok (count old t), delete old t)
