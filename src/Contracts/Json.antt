-- ===== src/Contracts/Json.antt =====
-- JSON values as `JSON.parse` gives them, and the formats of zod that the schemas of
-- packages/contracts/src/index.ts name. How a UUID or an instant is written is a parameter.
use Prim.Native.String.{String}
use text.Mathlib.Text.{◌==◌ as str_eq}
use event_booking_system_mic.Common.{Bool, ℕ, Option, some, none, ◌≡◌, if◌then◌else◌}
use event_booking_system_mic.Contracts.{UuidText}

-- A JavaScript number as far as the schemas and guards look: n, -(n + 1), or no integer at all.
pub data Number : Type 0 where
  nat : ℕ → Number
  negative : ℕ → Number
  fractional : Number

mutual
  pub data Json : Type 0 where
    null : Json
    boolean : Bool → Json
    number : Number → Json
    string : String → Json
    array : Elements → Json
    object : Properties → Json

  pub data Elements : Type 0 where
    nil : Elements
    element : Json → Elements → Elements

  pub data Properties : Type 0 where
    end : Properties
    property : String → Json → Properties → Properties

-- `value[key]` of an object; a key that is missing is `undefined`.
unfoldable pub property_of : String → Properties → Option Json
property_of key end = none
property_of key (property k v ps) = if str_eq key k then some v else property_of key ps

-- The properties of an object; `none` is any other value, which `z.object` refuses.
abbrev pub properties : Json → Option Properties
properties (object ps) = some ps
properties _ = none

-- The formats: `z.uuid()` and `z.iso.datetime({ offset: true })` on a text, and the texts that the
-- services write.
pub record Formats : Type 0 where
  pub read_uuid : String → Option UuidText
  pub write_uuid : UuidText → String
  pub read_instant : String → Option ℕ
  pub write_instant : ℕ → String
  -- the numbers that stand for the texts of UUIDs, where ids are stored and compared as texts
  pub text_number : UuidText → ℕ
  pub numbered_text : ℕ → UuidText

-- What is written can be read.
pub record ReadsBack (f : Formats) : Type 0 where
  pub uuid : (u : UuidText) → f.read_uuid (f.write_uuid u) ≡ some u
  pub instant : (t : ℕ) → f.read_instant (f.write_instant t) ≡ some t
  pub number : (n : ℕ) → f.text_number (f.numbered_text n) ≡ n
