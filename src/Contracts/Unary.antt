-- ===== src/Contracts/Unary.antt =====
-- Formats that meet `ReadsBack`, for tests: a number is written in unary, and an id as its value in
-- one character followed by its spelling in another.
use Prim.Native.String.{String, ◌∷◌ as prepend, [] as empty_text}
use Prim.Native.Char.{Char, char, code, nul}
use event_booking_system_mic.Common.{
  ◌-◌, ◌+◌, ℕ, Option, ◌≡◌, arith, suc, if◌then◌else◌, some, zero, ◌==◌, refl,
}
use event_booking_system_mic.Contracts.{UuidText, canonical}
use event_booking_system_mic.Contracts.Json.{Formats, ReadsBack}

abbrev one : Char
one = char 1 tt

-- A character n times in front of a text.
pub write : Char → ℕ → String → String
write c zero s = s
write c (suc n) s = prepend c (write c n s)

pub size : String → ℕ
size empty_text = 0
size (prepend c s) = size s + 1

-- How many characters `nul` a text begins with.
leading : String → ℕ
leading empty_text = 0
leading (prepend c s) = let rest = leading s in if code c == 0 then rest + 1 else 0

size-write : (c : Char) (n : ℕ) (s : String) → size (write c n s) ≡ n + size s
unfolding size write
size-write c zero s = omega arith
size-write c (suc n) s = ground (arith, size-write c n s)

leading-write : (n : ℕ) (s : String) → leading (write nul n s) ≡ n + leading s
unfolding leading write
leading-write zero s = omega arith
leading-write (suc n) s = ground (arith, leading-write n s)

leading-ones : (n : ℕ) → leading (write one n "") ≡ 0
unfolding leading write
leading-ones zero = refl
leading-ones (suc n) = refl

unfoldable pub write_id : UuidText → String
unfolding write
write_id u = write nul u.value (write one u.spelling "")

unfoldable pub read_id : String → Option UuidText
unfolding size leading
read_id s = some (record { value = leading s; spelling = size s - leading s })

abbrev pub unary_formats : Formats
unary_formats = record {
  read_uuid = read_id;
  write_uuid = write_id;
  read_instant = λ s. some (size s);
  write_instant = λ t. write nul t "";
  text_number = λ u. u.value;
  numbered_text = canonical;
}

pub unary_formats-ReadsBack : ReadsBack unary_formats
unfolding read_id write_id size
unary_formats-ReadsBack = record {
  uuid = λ u. ground (
    arith,
    leading-write u.value (write one u.spelling ""),
    leading-ones u.spelling,
    size-write nul u.value (write one u.spelling ""),
    size-write one u.spelling "",
  );
  instant = λ t. ground (arith, size-write nul t "");
  number = λ n. refl;
}
