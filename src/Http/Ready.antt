-- ===== src/Http/Ready.antt =====
-- `readinessHandler` of packages/observability/src/index.ts, and the routes for it that each
-- app has.
use Prim.Native.String.{String}
use event_booking_system_mic.Common.{
  ◌∷◌, ◌&&◌, Bool, List, Outcome, true, [], ℕ, is_ok, if◌then◌else◌, ok,
}
use event_booking_system_mic.Errors.{Thrown}
use event_booking_system_mic.Http.{Route, Handler, send_json}

pub record Readiness : Type 0 where
  pub is_ready : Bool
  pub checks : List (String × Bool)

-- The name of each check with whether it went well.
unfoldable pub run_checks : List (String × Outcome Thrown (Unit {0})) → List (String × Bool)
run_checks [] = []
run_checks ((name, check) ∷ checks) = (name, is_ok check) ∷ run_checks checks

unfoldable pub every_ok : List (String × Bool) → Bool
every_ok [] = true
every_ok ((_, status) ∷ entries) = status && every_ok entries

-- `readinessHandler`: the status of the answer and its body
unfoldable pub readiness_handler : List (String × Outcome Thrown (Unit {0})) → ℕ × Readiness
readiness_handler checks =
    let entries = run_checks checks in
    (
      if every_ok entries then 200 else 503,
      record { is_ready = every_ok entries; checks = entries },
    )

-- What an answer of an app carries.
pub data Body (A : Type 0) : Type 0 where
  entity : A → Body A
  alive : Body A
  readiness : Readiness → Body A
  metrics : String → Body A

module _ {W A : Type 0} where
  -- `/health/live`
  unfoldable pub health_live : Handler W (Body A)
  health_live call w = (ok (send_json 200 alive), w)

  -- `/health/ready`, with the checks of an app
  unfoldable pub health_ready : (W → List (String × Outcome Thrown (Unit {0}))) → Handler W (Body A)
  health_ready checks call w =
      let (status, body) = readiness_handler (checks w) in
      (ok (send_json status (readiness body)), w)

  -- `metricsHandler`, with what the registry prints
  unfoldable pub metrics_handler : (W → String) → Handler W (Body A)
  metrics_handler print call w = (ok (send_json 200 (metrics (print w))), w)

  -- The routes of an app in front of its router.
  abbrev pub service_routes :
      (W → List (String × Outcome Thrown (Unit {0}))) → (W → String) → List (Route W (Body A))
  service_routes checks print =
      record { method = "GET"; pattern = "/health/live"; handler = health_live }
      ∷ record { method = "GET"; pattern = "/health/ready"; handler = health_ready checks }
      ∷ record { method = "GET"; pattern = "/metrics"; handler = metrics_handler print }
      ∷ []
