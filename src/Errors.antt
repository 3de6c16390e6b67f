-- ===== src/Errors.antt =====
-- What the services throw, and the HTTP answer that each service's error handler makes of it
-- (services/*/src/middleware/error-handler.ts; the three files are the same code).
use Prim.Native.String.{String}
use event_booking_system_mic.Common.{ℕ, Option, List, [], ◌∷◌}

-- `class AppError` of each service
pub record AppError : Type 0 where
  pub code : String
  pub message : String
  pub status_code : ℕ

pub data Thrown : Type 0 where
  app_error : AppError → Thrown
  inventory_error : AppError → Thrown  -- `InventoryError` is no `AppError`
  capacity_below_reserved_seats : Thrown  -- `CapacityBelowReservedSeatsError`
  unique_violation : Thrown  -- Prisma's P2002
  zod_error : List String → Thrown  -- the messages of its issues
  syntax_error : Thrown
  permanent_message_error : String → Thrown
  plain_error : String → Thrown  -- any other `Error`
  not_an_error : Thrown

-- The body of an error answer.
pub record ErrorBody : Type 0 where
  pub status : ℕ
  pub code : String
  pub message : String
  pub request_id : Option ℕ

abbrev first_issue : List String → String
first_issue [] = "Validation failed"
first_issue (m ∷ ms) = m

-- `errorHandler`
unfoldable pub error_handler : Thrown → Option ℕ → ErrorBody
error_handler (zod_error issues) id = record {
  status = 400;
  code = "VALIDATION_ERROR";
  message = first_issue issues;
  request_id = id;
}
error_handler (app_error e) id = record {
  status = e.status_code;
  code = e.code;
  message = e.message;
  request_id = id;
}
error_handler _ id = record {
  status = 500;
  code = "INTERNAL_ERROR";
  message = "Internal server error";
  request_id = id;
}
