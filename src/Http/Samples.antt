-- ===== src/Http/Samples.antt =====
-- Values of the parameters, for tests: paths that are matched as they stand, a body that does not
-- depend on its text, and schemas without their finer checks.
use Prim.Native.String.{String}
use text.Mathlib.Text.{◌==◌ as str_eq}
use event_booking_system_mic.Common.{◌∷◌, Option, ℕ, some, throws, [], ok, if◌then◌else◌, suc, none}
use event_booking_system_mic.Contracts.Json.{object, end, number, string, Json, Number}
use event_booking_system_mic.Http.Zod.{Parsed, Zod}
use event_booking_system_mic.Http.{Express, Request}
use event_booking_system_mic.Contracts.{UuidText, canonical}

abbrev pub plain_express : Json → Express
plain_express body = record {
  read_body = λ s. if str_eq s "" then ok none else ok (some body);
  match_path = λ pattern path. if str_eq pattern path then some (object end) else none;
  strip = λ mount path. if str_eq mount path then some "/" else none;
}

abbrev refused : {A : Type 0} → String → Parsed A
refused m = throws (m ∷ [])

abbrev plain_uuid : String → Option Json → Parsed UuidText
plain_uuid m (some (number (Number.nat n))) = ok (canonical n)
plain_uuid m _ = refused m

abbrev plain_positive : String → Option Json → Parsed ℕ
plain_positive m (some (number (Number.nat (suc n)))) = ok (suc n)
plain_positive m _ = refused m

abbrev plain_number : String → Option Json → Parsed ℕ
plain_number m (some (number (Number.nat n))) = ok n
plain_number m _ = refused m

abbrev plain_text : String → Option Json → Parsed String
plain_text m (some (string s)) = ok s
plain_text m _ = refused m

abbrev plain_page : Option ℕ → ℕ → Option Json → Parsed ℕ
plain_page max default v = ok default

-- An id, an instant and an address are numbers here.
abbrev pub plain_zod : Zod
plain_zod = record {
  uuid = plain_uuid;
  positive_int = plain_positive;
  trimmed = plain_text;
  datetime = plain_number;
  email = λ m m'. plain_number m';
  coerced_positive = plain_page;
  no_object = λ v. "no object" ∷ [];
}

abbrev pub plain_request : String → String → String → Option ℕ → Request
plain_request method path content key = record {
  method = method;
  path = path;
  original_url = path;
  content = content;
  query = object end;
  request_id = none;
  idempotency_key = key;
}
