-- ===== src/Strconv.antt =====
-- The decimal conversions of Go's `strconv` that the code calls, over bytes: `Itoa`, `ParseUint`,
-- `ParseInt` and `Atoi`. A syntax error and a range error are both `none`.
pub mod Laws
use j7f.Base.{
  ℕ, zero, suc, ◌+◌, ◌-◌, ◌*◌, ◌/◌, ◌%◌, ◌^◌, Bool, true, false, ◌||◌, List, [], ◌∷◌, ◌++◌, Option,
  none, some, Text, ltb, leb, ◌==◌, if◌then◌else◌,
}
use j7f.Base.Int.{ℤ, pos, negsuc}

-- Twenty digits are enough for 64 bits.
pub digits : ℕ → ℕ → Text
digits zero n = []
digits (suc f) n = if ltb n 10 then (b'0' + n) ∷ [] else digits f (n / 10) ++ (b'0' + n % 10) ∷ []

unfoldable pub format_uint : ℕ → Text
unfolding digits
format_uint n = digits 20 n

unfoldable pub itoa : ℤ → Text
itoa (pos n) = format_uint n
itoa (negsuc n) = b'-' ∷ format_uint (suc n)

-- Reads on behind the value `n`, up to the limit.
pub scan_digits : ℕ → ℕ → Text → Option ℕ
scan_digits limit n [] = some n
scan_digits limit n (c ∷ s) =
    let m = n * 10 + (c - b'0') in
    let rest = scan_digits limit m s in
    if ltb c b'0' || ltb b'9' c then none else if leb limit m then none else rest

unfoldable pub parse_uint : Text → Option ℕ
unfolding scan_digits
parse_uint [] = none
parse_uint (c ∷ s) = scan_digits (2 ^ 64) 0 (c ∷ s)

abbrev signed : Bool → Option ℕ → Option ℤ
signed neg none = none
signed true (some zero) = some (pos 0)
signed true (some (suc n)) = if ltb n (2 ^ 63) then some (negsuc n) else none
signed false (some n) = if ltb n (2 ^ 63) then some (pos n) else none

unfoldable pub parse_int : Text → Option ℤ
parse_int [] = none
parse_int (c ∷ s) =
    if c == b'-'
    then signed true (parse_uint s)
    else if c == b'+'
    then signed false (parse_uint s)
    else signed false (parse_uint (c ∷ s))

-- An int has 64 bits.
abbrev pub atoi : Text → Option ℤ
atoi = parse_int
