-- ===== src/Notification/App.antt =====
-- `createNotificationApp`, services/notification-service/src/app.ts, which has an error handler of its
-- own and leaves other errors and unknown routes to Express.
use Prim.Native.String.{String}
use event_booking_system_mic.Common.{
  ◌∷◌, List, Outcome, ℕ, Option, ok, if◌then◌else◌, Bool, throws, some, [], none,
}
use event_booking_system_mic.Contracts.Json.{Json}
use event_booking_system_mic.Http.{
  Reply, Express, Handler, Request, or_else, run_router, request_id_middleware, send_json,
}
use event_booking_system_mic.Errors.{Thrown, zod_error, plain_error}
use event_booking_system_mic.Http.Zod.{Zod, parse, pagination_query_schema}
use event_booking_system_mic.Http.Ready.{Body, service_routes, entity}
use event_booking_system_mic.Notification.{NotificationSink, NotificationRecord}

pub data NotificationReply : Type 0 where
  answered : Reply (Body (List NotificationRecord)) → NotificationReply
  -- the answer 400 with "Invalid request" and the issues
  invalid_request : List String → NotificationReply
  -- left to Express
  passed_on : Thrown → NotificationReply
  no_route : NotificationReply

-- The error handler at the end of the app.
unfoldable pub handle_error : Thrown → NotificationReply
handle_error (zod_error issues) = invalid_request issues
handle_error e = passed_on e

module _ (express : Express) (zod : Zod) (sink : NotificationSink) where
  -- What the requests of the app work on.
  pub record NotificationWorld : Type 0 where
    pub stored : sink.State
    pub select_one : Outcome Thrown (Unit {0})
    pub kafka_ready : Bool
    pub metrics : String

  -- `GET /notifications`, with `list` of the consumer
  unfoldable pub get_notifications : Handler NotificationWorld (Body (List NotificationRecord))
  get_notifications call w = elim (parse (pagination_query_schema zod call.request.query)) [
    | throws e ↦ (throws e, w)
    | ok p ↦ (ok (send_json 200 (entity (sink.list p.page p.page_size w.stored))), w)
  ]

  -- The checks of `/health/ready`.
  abbrev pub notification_checks : NotificationWorld → List (String × Outcome Thrown (Unit {0}))
  notification_checks w =
      ("database", w.select_one)
      ∷ (
        "kafka",
        if w.kafka_ready then ok tt else throws (plain_error "Kafka consumer is not running"),
      )
      ∷ []

  -- The routes of the app.
  unfoldable pub notification_routes :
      Request
      → Option Json
      → NotificationWorld
      → Option (Outcome Thrown (Reply (Body (List NotificationRecord))) × NotificationWorld)
  notification_routes req body w =
      or_else
        (run_router express (service_routes notification_checks (λ w. w.metrics)) req.path req body
          w)
        (run_router express
          (record { method = "GET"; pattern = "/notifications"; handler = get_notifications } ∷ [])
          req.path req body w)

  -- What the client gets once the routes have run.
  abbrev answer_of :
      NotificationWorld
      → Option (Outcome Thrown (Reply (Body (List NotificationRecord))) × NotificationWorld)
      → NotificationReply × NotificationWorld
  answer_of w none = (no_route, w)
  answer_of w (some (ok reply, w')) = (answered reply, w')
  answer_of w (some (throws e, w')) = (handle_error e, w')

  -- `createNotificationApp`
  unfoldable pub notification_app :
      ℕ → Request → NotificationWorld → NotificationReply × NotificationWorld
  notification_app fresh req w = elim (express.read_body req.content) [
    | throws e ↦ (handle_error e, w)
    | ok body ↦ answer_of w (notification_routes (request_id_middleware fresh req) body w)
  ]
