-- ===== src/Strconv.antt =====
-- What the program uses of Go's strconv and strings: `Itoa`, `FormatInt(n, 10)`, `Atoi`,
-- `ParseInt(s, 10, 64)` (int has 64 bits) and `Split`. Also json.Number's `Int64`, a `ParseInt`.
pub mod Decimal
pub mod Parts
use grandma_scheduling_servi.Prelude.{
  ℕ, zero, suc, ◌+◌, ◌-◌, ◌*◌, ◌/◌, ◌%◌, ◌^◌, ◌<◌, Bool, true, false, ◌||◌, List, [], ◌∷◌, ◌==◌,
  ltb, leb, if◌then◌else◌, arith, ◌≡◌, refl,
}
use grandma_scheduling_servi.Prelude.Int.{ℤ, pos, negsuc, sub_ℕ}
use grandma_scheduling_servi.Prelude.Text.{Bytes, codes}

-- The loop that writes the last digit first, in at most as many rounds as are given.
unfoldable pub put_digits : ℕ → ℕ → Bytes → Bytes
put_digits zero n out = out
put_digits (suc rounds) n out =
    let longer = put_digits rounds (n / 10) ((b'0' + n % 10) ∷ out) in
    if n == 0 then out else longer

-- `n` rounds are enough: each of them makes the number smaller.
unfoldable pub digits : ℕ → Bytes
unfolding put_digits
digits n = put_digits n n []

unfoldable pub format_uint : ℕ → Bytes
format_uint n = if n == 0 then b'0' ∷ [] else digits n

unfoldable pub itoa : ℤ → Bytes
itoa (pos n) = format_uint n
itoa (negsuc n) = b'-' ∷ format_uint (suc n)

-- How the parse of an unsigned number ends.
pub data Parsed : Type 0 where
  value : ℕ → Parsed
  syntax : Parsed
  range : Parsed

abbrev pub max_uint64 : ℕ
max_uint64 = 2 ^ 64 - 1

-- `ParseUint` behind the first digit, with the number so far.
unfoldable pub scan : Bytes → ℕ → Parsed
scan [] n = value n
scan (c ∷ s) n =
    let rest = scan s (n * 10 + (c - b'0')) in
    if ltb c b'0' || ltb b'9' c
    then syntax
    else if ltb max_uint64 (n * 10 + (c - b'0'))
    then range
    else rest

unfoldable pub parse_uint : Bytes → Parsed
unfolding scan
parse_uint [] = syntax
parse_uint (c ∷ s) = scan (c ∷ s) 0

-- The number that is returned, and whether an error is. A number out of range is cut to the nearest
-- that fits, and a text that is no number gives 0.
unfoldable pub signed : Bool → Parsed → ℤ × Bool
signed negative syntax = (pos 0, true)
signed false range = (pos (2 ^ 63 - 1), true)
signed true range = (sub_ℕ 0 (2 ^ 63), true)
signed false (value n) = if leb (2 ^ 63) n then (pos (2 ^ 63 - 1), true) else (pos n, false)
signed true (value n) = if ltb (2 ^ 63) n then (sub_ℕ 0 (2 ^ 63), true) else (sub_ℕ 0 n, false)

unfoldable pub parse_int : Bytes → ℤ × Bool
unfolding parse_uint signed
parse_int [] = (pos 0, true)
parse_int (c ∷ s) =
    if c == b'-'
    then signed true (parse_uint s)
    else if c == b'+'
    then signed false (parse_uint s)
    else signed false (parse_uint (c ∷ s))

unfoldable pub onto_head : ℕ → List Bytes → List Bytes
onto_head c [] = (c ∷ []) ∷ []
onto_head c (p ∷ ps) = (c ∷ p) ∷ ps

-- `strings.Split(s, sep)` at a separator of one byte: there is always at least one part.
unfoldable pub split : Bytes → ℕ → List Bytes
unfolding onto_head
split [] sep = [] ∷ []
split (c ∷ s) sep = let parts = split s sep in if c == sep then [] ∷ parts else onto_head c parts

minus_forty : parse_int (itoa (negsuc 39)) ≡ (negsuc 39, false)
unfolding itoa format_uint digits parse_int
minus_forty = refl

out_of_range : parse_int (codes "9223372036854775808") ≡ (pos (2 ^ 63 - 1), true)
unfolding parse_int
out_of_range = refl
