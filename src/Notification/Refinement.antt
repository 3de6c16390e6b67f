-- ===== src/Notification/Refinement.antt =====
-- `PrismaNotificationRepository`, services/notification-service/src/infrastructure/notifications/
-- notification.repository.ts, beside the in-memory store. The identifiers that
-- `randomUUID` makes are an argument.
use Prim.Native.String.{String}
use mathlib.Core.Option
use event_booking_system_mic.Sql.{Schema, Sql, mem, create-taken_key, create_fresh}
use event_booking_system_mic.Common.{
  ◌*◌, ◌++◌, ◌∷◌, ◌-◌, ℕ, List, Bool, some, none, Option, ◌≡◌, false, is_some, map, true,
  Bool-cases, inl, arith, inr, ==_iff, refl, [], if◌then◌else◌, ◌==◌,
}
use event_booking_system_mic.Notification.{
  NotificationRecord, append_if_unprocessed, NotificationType, NotificationStore,
}
use event_booking_system_mic.Contracts.{canonical, FailureReason}

pub record NotificationRow : Type 0 where
  pub id : ℕ
  pub type : NotificationType
  pub message_id : ℕ
  pub correlation_id : ℕ
  pub booking_id : ℕ
  pub event_id : ℕ
  pub message : String
  pub reason : Option FailureReason
  pub occurred_at : ℕ
  pub created_at : ℕ

pub record ProcessedNotificationMessage : Type 0 where
  pub message_id : ℕ
  pub processed_at : ℕ

abbrev pub notification_schema : Schema NotificationRow
notification_schema = record { key = λ r. r.id; unique = λ r. some r.message_id }

abbrev pub processed_schema : Schema ProcessedNotificationMessage
processed_schema = record { key = λ r. r.message_id; unique = λ r. none }

-- The row that `notification.create` inserts; the column `event_id` keeps no spelling.
abbrev pub new_notification : ℕ → ℕ → NotificationRecord → NotificationRow
new_notification now id r = record {
  id = id;
  type = r.type;
  message_id = r.message_id;
  correlation_id = r.correlation_id;
  booking_id = r.booking_id;
  event_id = r.event_id.value;
  message = r.message;
  reason = r.reason;
  occurred_at = r.timestamp;
  created_at = now;
}

-- The record that `list` makes of a row.
abbrev pub listed : NotificationRow → NotificationRecord
listed r = record {
  timestamp = r.occurred_at;
  message = r.message;
  type = r.type;
  message_id = r.message_id;
  correlation_id = r.correlation_id;
  booking_id = r.booking_id;
  event_id = canonical r.event_id;
  reason = r.reason;
}

-- The record of a message, and the record with the event id as the database spells it.
abbrev pub find_record : ℕ → List NotificationRecord → Option NotificationRecord
find_record m [] = none
find_record m (r ∷ rs) = if m == r.message_id then some r else find_record m rs

abbrev pub respelt : NotificationRecord → NotificationRecord
respelt r = record r { event_id = canonical r.event_id.value }

find_record-append :
    (m : ℕ) (rs : List NotificationRecord) (r : NotificationRecord)
    → find_record r.message_id rs ≡ none
    → find_record m (rs ++ (r ∷ [])) ≡ (if m == r.message_id then some r else find_record m rs)
find_record-append m [] r h = refl
find_record-append m (x ∷ xs) r h = ground (
  arith,
  find_record-append m xs r,
  h,
  ==_iff m x.message_id,
  ==_iff m r.message_id,
  ==_iff r.message_id x.message_id,
)

module _ (sql : Sql) where
  pub record NotificationDb : Type 0 where
    pub notifications : sql.Rows NotificationRow
    pub processed : sql.Rows ProcessedNotificationMessage

  -- `appendIfUnprocessed`: both inserts or none, and a broken unique constraint of either is answered
  -- by `false`.
  unfoldable pub store_if_unprocessed :
      ℕ → ℕ → NotificationRecord → NotificationDb → Bool × NotificationDb
  store_if_unprocessed now id r db =
      elim (sql.create processed_schema (record { message_id = r.message_id; processed_at = now })
        db.processed) [
          | none ↦ (false, db)
          | some marked ↦
              elim (sql.create notification_schema (new_notification now id r) db.notifications) [
                | none ↦ (false, db)
                | some rows ↦ (true, record { notifications = rows; processed = marked })
              ]
        ]

  -- `list`; `page` is at least 1 (`paginationQuerySchema`).
  unfoldable pub list_notifications : ℕ → ℕ → NotificationDb → List NotificationRecord
  list_notifications page page_size db = map listed (
      sql.find_many notification_schema (λ r. true) (λ r. r.created_at) ((page - 1) * page_size)
        page_size db.notifications)

  -- A database that holds, for every message, the notification that the store has for it, and in
  -- which the messages that the store has processed are marked; each of them has a notification.
  pub record Matches (s : NotificationStore) (db : NotificationDb) : Type 0 where
    pub marked : (m : ℕ) → is_some (sql.find processed_schema m db.processed) ≡ mem m s.processed
    pub stored :
        (m : ℕ)
        → Option.map listed (sql.find_by notification_schema m db.notifications)
          ≡ Option.map respelt (find_record m s.records)
    pub kept : (m : ℕ) → is_some (find_record m s.records) ≡ mem m s.processed

  abbrev marker : ℕ → NotificationRecord → ProcessedNotificationMessage
  marker now r = record { message_id = r.message_id; processed_at = now }

  store_if_unprocessed-taken :
      (now id : ℕ) (r : NotificationRecord) (db : NotificationDb)
      → sql.create processed_schema (marker now r) db.processed ≡ none
      → store_if_unprocessed now id r db ≡ (false, db)
  unfolding store_if_unprocessed
  store_if_unprocessed-taken now id r db e = ground (arith, e)

  store_if_unprocessed-fresh :
      (now id : ℕ) (r : NotificationRecord) (db db' : NotificationDb)
      → sql.create processed_schema (marker now r) db.processed ≡ some db'.processed
      → sql.create notification_schema (new_notification now id r) db.notifications
        ≡ some db'.notifications
      → store_if_unprocessed now id r db ≡ (true, db')
  unfolding store_if_unprocessed
  store_if_unprocessed-fresh now id r db db' e f = ground (arith, e, f)

  append_if_unprocessed-taken :
      (r : NotificationRecord) (s : NotificationStore)
      → mem r.message_id s.processed ≡ true
      → append_if_unprocessed r s ≡ (false, s)
  unfolding append_if_unprocessed
  append_if_unprocessed-taken r s e = ground (arith, e)

  append_if_unprocessed-fresh :
      (r : NotificationRecord) (s : NotificationStore)
      → mem r.message_id s.processed ≡ false
      → append_if_unprocessed r s
        ≡ (true, record { records = s.records ++ (r ∷ []); processed = r.message_id ∷ s.processed })
  unfolding append_if_unprocessed
  append_if_unprocessed-fresh r s e = ground (arith, e)

  -- Where the database holds for every message the notification that the store holds, with the event id
  -- respelt, and marks the same messages, and the new identifier is not taken: the repository answers
  -- what the store answers, and the same holds of the database and the store that they leave.
  pub store_if_unprocessed-Matches :
      (now id : ℕ) (r : NotificationRecord) (s : NotificationStore) (db : NotificationDb)
      → Matches s db
      → sql.find notification_schema id db.notifications ≡ none
      → ((store_if_unprocessed now id r db).0 ≡ (append_if_unprocessed r s).0)
        × Matches (append_if_unprocessed r s).1 (store_if_unprocessed now id r db).1
  store_if_unprocessed-Matches now id r s db h fresh =
      let p : ProcessedNotificationMessage = record {
        message_id = r.message_id;
        processed_at = now;
      } in
      let n = new_notification now id r in
      elim (Bool-cases (mem r.message_id s.processed)) [
        | inl e ↦
            let no =
              create-taken_key sql processed_schema p db.processed
                (ground (arith, h.marked r.message_id, e)) in
            rw (store_if_unprocessed-taken now id r db no, append_if_unprocessed-taken r s e)
              (refl, h)
        | inr e ↦
            let (marked, c) =
              create_fresh sql processed_schema p db.processed
                (ground (arith, h.marked r.message_id, e)) refl in
            let no_record : find_record r.message_id s.records ≡ none =
              ground (arith, h.kept r.message_id, e) in
            let (rows, d) =
              create_fresh sql notification_schema n db.notifications fresh
                (ground (arith, h.stored r.message_id, no_record)) in
            let db' : NotificationDb = record { notifications = rows; processed = marked } in
            rw (store_if_unprocessed-fresh now id r db db' c d, append_if_unprocessed-fresh r s e)
              (
                refl,
                record {
                  marked = λ m. ground (
                    arith,
                    sql.find-create processed_schema p db.processed m c,
                    h.marked m,
                    ==_iff m r.message_id,
                  );
                  stored = λ m. ground (
                    arith,
                    sql.find_by-create notification_schema n db.notifications m d,
                    h.stored m,
                    find_record-append m s.records r no_record,
                    ==_iff m r.message_id,
                    ==_iff r.message_id m,
                  );
                  kept = λ m. ground (
                    arith,
                    h.kept m,
                    find_record-append m s.records r no_record,
                    ==_iff m r.message_id,
                  );
                },
              )
      ]
