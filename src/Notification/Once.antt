-- ===== src/Notification/Once.antt =====
-- Deliveries to the in-memory store of notification-store.ts.

-- How many of the records belong to a message.
use event_booking_system_mic.Common.{
  List, ℕ, ◌≡◌, ◌∷◌, ◌++◌, if◌then◌else◌, arith, [], ==_iff, ◌==◌, ◌||◌, suc, ◌+◌,
}
use event_booking_system_mic.Notification.{
  deliver, deliver_all, NotificationStore, append_if_unprocessed, Delivery,
  handle_booking_confirmed, NotificationRecord, handle_booking_failed, in_memory, delivered_id,
  handle_booking_cancelled,
}
use event_booking_system_mic.Sql.{mem}

abbrev pub count : ℕ → List NotificationRecord → ℕ
count m [] = 0
count m (r ∷ rs) = if m == r.message_id then suc (count m rs) else count m rs

count-append :
    (m : ℕ) (rs : List NotificationRecord) (r : NotificationRecord)
    → count m (rs ++ (r ∷ [])) ≡ count m rs + (if m == r.message_id then 1 else 0)
count-append m [] r = ground arith
count-append m (x ∷ rs) r = ground (arith, count-append m rs r)

abbrev pub delivered_ids : List (ℕ × Delivery in_memory) → List ℕ
delivered_ids [] = []
delivered_ids (x ∷ ds) = delivered_id in_memory x.1 ∷ delivered_ids ds

-- The records are those of the processed messages, one each.
abbrev pub IsConsistent : NotificationStore → Type 0
IsConsistent s = (m : ℕ) → count m s.records ≡ (if mem m s.processed then 1 else 0)

append_if_unprocessed-IsConsistent :
    (r : NotificationRecord) (s : NotificationStore)
    → IsConsistent s
    → IsConsistent (append_if_unprocessed r s).1
unfolding append_if_unprocessed
append_if_unprocessed-IsConsistent r s h m =
    ground (arith, h m, count-append m s.records r, ==_iff m r.message_id)

append_if_unprocessed-processed :
    (r : NotificationRecord) (s : NotificationStore) (m : ℕ)
    → mem m (append_if_unprocessed r s).1.processed ≡ (m == r.message_id || mem m s.processed)
unfolding append_if_unprocessed
append_if_unprocessed-processed r s m = ground (arith, ==_iff m r.message_id)

deliver-IsConsistent :
    (now : ℕ) (d : Delivery in_memory) (s : NotificationStore)
    → IsConsistent s
    → IsConsistent (deliver in_memory now d s).1
unfolding deliver handle_booking_confirmed handle_booking_failed handle_booking_cancelled
deliver-IsConsistent now (Delivery.confirmed m) s h = append_if_unprocessed-IsConsistent _ s h
deliver-IsConsistent now (Delivery.failed m) s h = append_if_unprocessed-IsConsistent _ s h
deliver-IsConsistent now (Delivery.cancelled m) s h = append_if_unprocessed-IsConsistent _ s h

deliver-processed :
    (now : ℕ) (d : Delivery in_memory) (s : NotificationStore) (m : ℕ)
    → mem m (deliver in_memory now d s).1.processed
      ≡ (m == delivered_id in_memory d || mem m s.processed)
unfolding deliver handle_booking_confirmed handle_booking_failed handle_booking_cancelled
deliver-processed now (Delivery.confirmed x) s m = append_if_unprocessed-processed _ s m
deliver-processed now (Delivery.failed x) s m = append_if_unprocessed-processed _ s m
deliver-processed now (Delivery.cancelled x) s m = append_if_unprocessed-processed _ s m

-- After any messages in any order, from a consistent store, a message has exactly one record if it
-- was delivered or processed before, and none otherwise, at whatever times and however often it was
-- delivered.
pub deliver_all_once :
    (ds : List (ℕ × Delivery in_memory)) (s : NotificationStore) (m : ℕ)
    → IsConsistent s
    → count m (deliver_all in_memory ds s).records
      ≡ (if mem m (delivered_ids ds) || mem m s.processed then 1 else 0)
unfolding deliver_all
deliver_all_once [] s m h = h m
deliver_all_once (x ∷ ds) s m h = ground (
  arith,
  deliver_all_once ds (deliver in_memory x.0 x.1 s).1 m (deliver-IsConsistent x.0 x.1 s h),
  deliver-processed x.0 x.1 s m,
)
