-- ===== src/Json/Convert.antt =====
-- Conversions of Python on JSON values: `int(x)`, `str(x)`, and the uses of a value as a dict or a
-- list that raise on another. A text converts to an integer if it is an optional sign and decimal
-- digits; the spaces and underscores that Python also takes are not read.
use Prim.Native.Char.{code}
use jarvis_awf.Prelude.{
  ℕ, zero, suc, ◌+◌, ◌-◌, ◌*◌, ◌/◌, ◌%◌, String, ◌<>◌, ◌≡◌, refl, true, false, ◌&&◌, Option, none,
  some, leb, ltb, nat_eq, if◌then◌else◌,
}
use jarvis_awf.Prelude.Int.{ℤ, pos, negsuc}
use jarvis_awf.Json.{Value, bool, num, str, obj, Dict}
use jarvis_awf.Exec.{Result, ok, err, plain, type_error, value_error, attribute_error}

decimal : ℕ → String → Option ℕ
decimal acc String.[] = some acc
decimal acc (String.◌∷◌ c s) =
    let d = code c in
    let rest = decimal (acc * 10 + (d - 48)) s in if leb 48 d && leb d 57 then rest else none

natural : String → Option ℕ
unfolding decimal
natural String.[] = none
natural (String.◌∷◌ c s) = decimal 0 (String.◌∷◌ c s)

abbrev negated : ℕ → ℤ
negated zero = pos 0
negated (suc n) = negsuc n

abbrev bad_int : Result ℤ
bad_int = err (plain value_error "invalid literal for int() with base 10")

abbrev int_or_raise : (ℕ → ℤ) → Option ℕ → Result ℤ
int_or_raise f none = bad_int
int_or_raise f (some n) = ok (f n)

unfoldable pub int_of_text : String → Result ℤ
unfolding natural
int_of_text String.[] = bad_int
int_of_text (String.◌∷◌ c s) =
    if nat_eq (code c) b'-'
    then int_or_raise negated (natural s)
    else if nat_eq (code c) b'+'
    then int_or_raise pos (natural s)
    else int_or_raise pos (natural (String.◌∷◌ c s))

-- `int(x)`
abbrev pub int_of : Value → Result ℤ
int_of (num z) = ok z
int_of (bool true) = ok (pos 1)
int_of (bool false) = ok (pos 0)
int_of (str s) = int_of_text s
int_of _ = err (plain type_error "int() argument must be a string or a real number")

-- a value on which the code calls `.get`
abbrev pub dict_of : Value → Result Dict
dict_of (obj d) = ok d
dict_of _ = err (plain attribute_error "object has no attribute 'get'")

-- the decimal digits of `str(n)`; a number has fewer digits than its value plus one
digits : ℕ → ℕ → String → String
digits zero n rest = rest
digits (suc fuel) n rest =
    let more = digits fuel (n / 10) (String.◌∷◌ (digit (n % 10)) rest) in
    if ltb n 10 then String.◌∷◌ (digit n) rest else more
  where
    digit : ℕ → Prim.Native.Char.Char
    digit d =
        if nat_eq d 0
        then "0"
        else if nat_eq d 1
        then "1"
        else if nat_eq d 2
        then "2"
        else if nat_eq d 3
        then "3"
        else if nat_eq d 4
        then "4"
        else if nat_eq d 5
        then "5"
        else if nat_eq d 6
        then "6"
        else if nat_eq d 7
        then "7"
        else if nat_eq d 8
        then "8"
        else "9"

unfoldable pub str_of_nat : ℕ → String
unfolding digits
str_of_nat n = digits (suc n) n ""

-- `str(n)` of an integer
abbrev pub str_of_int : ℤ → String
str_of_int (pos n) = str_of_nat n
str_of_int (negsuc n) = "-" <> str_of_nat (n + 1)

int_of_signed : (int_of (str "-12") ≡ ok (negsuc 11)) × (int_of (str "x") ≡ bad_int)
unfolding int_of_text
int_of_signed = (refl, refl)

str_of_number : str_of_nat 1204 ≡ "1204"
unfolding str_of_nat
str_of_number = refl
