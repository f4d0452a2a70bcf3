-- ===== src/Db/Requests.antt =====
-- internal/db/requests.go: the table v2_requests and the methods of RequestStore.
-- A method takes the driver's answer to each of its statements, and the times that it reads.
mod Types
pub mod View
pub mod Lifecycle
pub mod Outcomes
pub mod Once
pub mod Reads
pub mod Listing
mod Tests
pub use Types.*
use revaulter.Base.{
  text_eq, ℕ, ◌-◌, Text, same, is_empty, ◌≡◌, refl, Bool, true, false, ◌&&◌, not, ltb, leb, Option,
  none, some, List, [], ◌∷◌, map, if◌then◌else◌,
}
use revaulter.Sql.{Conn, up, down, select, update, delete, count, first}
use revaulter.Sql.Keyed
use revaulter.Time.{unix, before}
use revaulter.Json.{Codec}
use revaulter.Protocol.Envelope.{ResponseEnvelope}

-- CreateRequest
unfoldable pub create_request : Conn → CreateRequestInput → Requests → Result (Unit {0}) × Requests
create_request down i t = (err driver, t)
create_request up i t = elim (Keyed.insert key (row_of i) t) [
  | none ↦ (err duplicate, t)
  | some t' ↦ (ok tt, t')
]

-- ExpirePending
unfoldable pub expire_pending : Conn → ℕ → Requests → Result (Unit {0}) × Requests
expire_pending down now t = (err driver, t)
expire_pending up now t = (ok tt, update (is_overdue (unix now)) (set_status expired (unix now)) t)

-- CleanupOldRecords: the number of rows that it deleted
unfoldable pub cleanup_old_records : Conn → ℕ → Requests → Result ℕ × Requests
cleanup_old_records down now t = (err driver, t)
cleanup_old_records up now t =
    let old = λ (r : RequestRow). not (is_pending r.status) && ltb r.expires_at (unix now - 600) in
    (ok (count old t), delete old t)

-- DeleteTerminalRequest
unfoldable pub delete_terminal_request :
    Conn → Text → Option ℕ → Requests → Result (Unit {0}) × Requests
delete_terminal_request down state cutoff t = (err driver, t)
delete_terminal_request up state cutoff t =
    (ok tt, delete (λ r. same r.state state && is_deletable cutoff r) t)

-- The `ORDER BY created_at ASC` of ListPending: an insertion sort, stable.
unfoldable pub insert_by_date : RequestListItem → List RequestListItem → List RequestListItem
insert_by_date i [] = i ∷ []
insert_by_date i (j ∷ l) =
    let rest = insert_by_date i l in if leb i.date j.date then i ∷ j ∷ l else j ∷ rest

unfoldable pub order_by_date : List RequestListItem → List RequestListItem
unfolding insert_by_date
order_by_date [] = []
order_by_date (i ∷ l) = insert_by_date i (order_by_date l)

-- ListPending, whose first statement is ExpirePending, its error ignored
unfoldable pub list_pending :
    Conn → Conn → ℕ → Text → Requests → Result (List RequestListItem) × Requests
list_pending c down now user t = (err driver, (expire_pending c now t).1)
list_pending c up now user t =
    let t' = (expire_pending c now t).1 in
    (ok (order_by_date (map item_of (select (is_listed user) t'))), t')

module _ (json : Codec ResponseEnvelope) where
  -- scanRequestRecord, on the columns of one row
  unfoldable pub scan : RequestRow → Result RequestRecord
  scan r =
      if is_empty r.encrypted_result
      then ok (record_of r none)
      else elim (json.unmarshal r.encrypted_result) [
        | none ↦ err bad_json
        | some env ↦ ok (record_of r (some env))
      ]

  -- IsNoRowsError becomes `(nil, nil)` …
  unfoldable pub scan_optional : Option RequestRow → Result (Option RequestRecord)
  unfolding scan
  scan_optional none = ok none
  scan_optional (some r) = elim (scan r) [ ok rec ↦ ok (some rec) | err e ↦ err e ]

  -- … or ErrRequestNotModifiable.
  unfoldable pub scan_required : Option RequestRow → Result RequestRecord
  unfolding scan
  scan_required none = err not_modifiable
  scan_required (some r) = scan r

  -- getRequestRaw
  unfoldable pub get_request_raw : Conn → Text → Requests → Result (Option RequestRecord)
  get_request_raw down state t = err driver
  get_request_raw up state t = scan_optional (first (select (λ r. same r.state state && true) t))

  -- MarkExpired
  unfoldable pub mark_expired :
      Conn → ℕ → Text → Requests → Result (Option RequestRecord) × Requests
  mark_expired down now state t = (err driver, t)
  mark_expired up now state t =
      let hit = λ (r : RequestRow). same r.state state && is_overdue (unix now) r in
      (
        scan_optional (first (map (set_status expired (unix now)) (select hit t))),
        update hit (set_status expired (unix now)) t,
      )

  -- CompleteRequest
  unfoldable pub complete_request :
      Conn → ℕ → Text → Text → ResponseEnvelope → Requests → Result RequestRecord × Requests
  complete_request down now state user env t = (err driver, t)
  complete_request up now state user env t =
      let hit =
        λ (r : RequestRow). same r.state state && (same r.user_id user && is_live (unix now) r) in
      (
        scan_required (first (map (set_result (unix now) (json.marshal env)) (select hit t))),
        update hit (set_result (unix now) (json.marshal env)) t,
      )

  -- CancelRequest
  unfoldable pub cancel_request :
      Conn → ℕ → Text → Text → Requests → Result RequestRecord × Requests
  cancel_request down now state user t = (err driver, t)
  cancel_request up now state user t =
      let hit =
        λ (r : RequestRow). same r.state state && (same r.user_id user && is_pending r.status) in
      (
        scan_required (first (map (set_status canceled (unix now)) (select hit t))),
        update hit (set_status canceled (unix now)) t,
      )

  -- GetAndDeleteTerminalRequest
  unfoldable pub get_and_delete_terminal_request :
      Conn → ℕ → Text → Requests → Result (Option RequestRecord) × Requests
  get_and_delete_terminal_request down now state t = (err driver, t)
  get_and_delete_terminal_request up now state t =
      let hit = λ (r : RequestRow). same r.state state && is_terminal (unix now) r in
      (scan_optional (first (map (as_returned (unix now)) (select hit t))), delete hit t)

  -- The part of GetRequest after its first read; `others` is what concurrent writers do to the
  -- table between the UPDATE and the second read.
  abbrev pub reread :
      Conn
      → Text
      → (Requests → Requests)
      → Result (Option RequestRecord) × Requests
      → Result (Option RequestRecord) × Requests
  reread c state others (ok none, t) = (get_request_raw c state (others t), others t)
  reread c state others (ok (some r), t) = (ok (some r), t)
  reread c state others (err e, t) = (err e, t)

  -- GetRequest, with the writers between its statements
  unfoldable pub get_request :
      Conn
      → Conn
      → Conn
      → ℕ
      → ℕ
      → (Requests → Requests)
      → (Requests → Requests)
      → Text
      → Requests
      → Result (Option RequestRecord) × Requests
  get_request c₁ c₂ c₃ now now' before_mark after_mark state t = elim (get_request_raw c₁ state t) [
    | err e ↦ (err e, t)
    | ok none ↦ (ok none, t)
    | ok (some rec) ↦
        if is_pending rec.status && before rec.expires_at now
        then reread c₃ state after_mark (mark_expired c₂ now' state (before_mark t))
        else (ok (some rec), t)
  ]
