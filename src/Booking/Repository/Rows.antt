-- ===== src/Booking/Repository/Rows.antt =====
-- Rows of the booking tables and what is read off them (lines 33 to 110 of booking.repository.ts).
use event_booking_system_mic.Common.{
  ℕ, Bool, true, false, not, ◌&&◌, Option, none, some, [], ◌∷◌, ◌==◌, if◌then◌else◌,
}
use event_booking_system_mic.Booking.Types.{
  BookingRecord, BookingDto, Text, BookingProcessingFailureReason, booking_not_found,
  event_mismatch, quantity_mismatch, invalid_status,
}
use event_booking_system_mic.Contracts.{UuidText, canonical, text_eq, BookingStatus}

abbrev pub map_row : BookingRecord → BookingDto
map_row row = record {
  id = row.id;
  user_id = row.user_id;
  event_id = row.event_id;
  quantity = row.quantity;
  status = row.status;
  idempotency_key = row.idempotency_key;
  created_at = row.created_at;
  updated_at = row.updated_at;
}

abbrev pub status_eq : BookingStatus → BookingStatus → Bool
status_eq BookingStatus.pending BookingStatus.pending = true
status_eq BookingStatus.confirmed BookingStatus.confirmed = true
status_eq BookingStatus.failed BookingStatus.failed = true
status_eq BookingStatus.cancelled BookingStatus.cancelled = true
status_eq BookingStatus.expired BookingStatus.expired = true
status_eq _ _ = false

-- The optional `quantity` and `status` of the input; both final branches give the same reason.
unfoldable pub classify_booking_failure :
    Option BookingDto → UuidText → Option ℕ → Option BookingStatus → BookingProcessingFailureReason
classify_booking_failure none event_id quantity status = booking_not_found
classify_booking_failure (some booking) event_id quantity status =
    if not (text_eq (canonical booking.event_id) event_id)
    then event_mismatch
    else if elim quantity [ none ↦ false | some q ↦ not (booking.quantity == q) ]
    then quantity_mismatch
    else if elim status [ none ↦ false | some st ↦ not (status_eq booking.status st) ]
    then invalid_status
    else invalid_status

-- A key that a JavaScript test takes for true: neither null nor the empty text.
abbrev pub truthy_key : Option ℕ → Option ℕ
truthy_key none = none
truthy_key (some k) = if k == 0 then none else some k

-- JavaScript's `===` on two fingerprints.
abbrev pub fingerprint_eq : Text → Text → Bool
fingerprint_eq [] [] = true
fingerprint_eq [] (b ∷ bs) = false
fingerprint_eq (a ∷ as') [] = false
fingerprint_eq (a ∷ as') (b ∷ bs) = a == b && fingerprint_eq as' bs
