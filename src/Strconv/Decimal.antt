-- ===== src/Strconv/Decimal.antt =====
-- A number that fits in int64 is read back from its decimal print, and the print is free of newlines.
use grandma_scheduling_servi.Prelude.{
  ℕ, zero, suc, ◌+◌, ◌/◌, ◌%◌, ◌^◌, ◌≤◌, ◌<◌, ◌≡◌, ◌≢◌, refl, ap, ◌∙◌, inl, inr, false, [], ◌∷◌,
  ◌==◌, arith, All, Bool-cases,
}
use grandma_scheduling_servi.Prelude.Int.{ℤ, pos, negsuc, pos_part, neg_part}
use grandma_scheduling_servi.Prelude.Text.{Bytes, Lacks}
use grandma_scheduling_servi.Strconv.{
  put_digits, digits, format_uint, itoa, value, max_uint64, scan, parse_uint, parse_int,
}

abbrev IsDigit : ℕ → Type 0
IsDigit c = (b'0' ≤ c) × (c ≤ b'9')

last-IsDigit : (n : ℕ) → IsDigit (b'0' + n % 10)
last-IsDigit n = omega arith

-- Reading the last digit behind the number that the digits before it spell.
read_last :
    (n : ℕ) (out : Bytes) → n ≤ max_uint64 → scan ((b'0' + n % 10) ∷ out) (n / 10) ≡ scan out n
unfolding scan
read_last n out fits = ground arith

-- The digits that are put before a text are read as the number.
scan-put_digits :
    (rounds n : ℕ) (out : Bytes)
    → n ≤ rounds
    → n ≤ max_uint64
    → scan (put_digits rounds n out) 0 ≡ scan out n
unfolding put_digits
scan-put_digits zero n out enough fits = ap (scan out) (omega arith)
scan-put_digits (suc rounds) n out enough fits =
    let out' = (b'0' + n % 10) ∷ out in
    ground (arith, scan-put_digits rounds (n / 10) out', read_last n out)

put_digits-IsDigit :
    (rounds n : ℕ) (out : Bytes) → All IsDigit out → All IsDigit (put_digits rounds n out)
unfolding put_digits
put_digits-IsDigit zero n out h = h
put_digits-IsDigit (suc rounds) n out h =
    let h' = put_digits-IsDigit rounds (n / 10) ((b'0' + n % 10) ∷ out) (last-IsDigit n, h) in
    elim (Bool-cases (n == 0)) [ inl e ↦ rw e h | inr e ↦ rw e h' ]

put_digits-ne-nil : (rounds n : ℕ) (out : Bytes) → out ≢ [] → put_digits rounds n out ≢ []
unfolding put_digits
put_digits-ne-nil zero n out h = h
put_digits-ne-nil (suc rounds) n out h =
    let h' = put_digits-ne-nil rounds (n / 10) ((b'0' + n % 10) ∷ out) (λ e. cc) in
    elim (Bool-cases (n == 0)) [ inl e ↦ rw e h | inr e ↦ rw e h' ]

-- The print of a number is one digit or more, and reads back as the number.
record IsPrint (n : ℕ) (s : Bytes) : Type 0 where
  filled : s ≢ []
  all_digits : All IsDigit s
  reads : scan s 0 ≡ value n

format_uint-suc :
    (n : ℕ) → format_uint (suc n) ≡ put_digits n (suc n / 10) ((b'0' + suc n % 10) ∷ [])
unfolding format_uint digits
format_uint-suc n = let e : (suc n == 0) ≡ false = ground arith in rw e

format_uint-IsPrint : (n : ℕ) → n ≤ max_uint64 → IsPrint n (format_uint n)
format_uint-IsPrint zero h =
    unfold format_uint scan in record { filled = cc; all_digits = omega arith; reads = refl }
format_uint-IsPrint (suc n) h =
    let out : Bytes = (b'0' + suc n % 10) ∷ [] in
    rw (format_uint-suc n) (record {
      filled = put_digits-ne-nil n (suc n / 10) out (λ e. cc);
      all_digits = put_digits-IsDigit n (suc n / 10) out (last-IsDigit (suc n), tt);
      reads =
          scan-put_digits n (suc n / 10) out (omega arith) (omega arith)
          ∙ read_last (suc n) [] h
          ∙ scan_nil (suc n);
    })
  where
    scan_nil : (k : ℕ) → scan [] k ≡ value k
    scan_nil k = unfold scan in refl

parse_uint-scan : (s : Bytes) → s ≢ [] → parse_uint s ≡ scan s 0
unfolding parse_uint
parse_uint-scan [] h = absurd (h refl)
parse_uint-scan (c ∷ s) h = refl

parse_uint-format_uint : (n : ℕ) → n ≤ max_uint64 → parse_uint (format_uint n) ≡ value n
parse_uint-format_uint n h =
    let p = format_uint-IsPrint n h in parse_uint-scan (format_uint n) p.filled ∙ p.reads

-- A text that starts with a digit has no sign.
parse_int_unsigned : (s : Bytes) (n : ℕ) → IsPrint n s → n < 2 ^ 63 → parse_int s ≡ (pos n, false)
unfolding parse_int
parse_int_unsigned [] n p h = absurd (p.filled refl)
parse_int_unsigned (c ∷ s) n p h =
    ground (arith, parse_uint-scan (c ∷ s) p.filled, p.reads, p.all_digits)

-- The integers of Go's int and int64.
abbrev pub IsInt64 : ℤ → Type 0
IsInt64 z = (pos_part z < 2 ^ 63) × (neg_part z ≤ 2 ^ 63)

-- Every int64 is read back from its print, with no error.
pub parse_int-itoa : (z : ℤ) → IsInt64 z → parse_int (itoa z) ≡ (z, false)
unfolding itoa
parse_int-itoa (pos n) h =
    parse_int_unsigned (format_uint n) n (format_uint-IsPrint n (omega arith)) h.0
parse_int-itoa (negsuc n) h = unfold parse_int in ground (arith, parse_uint-format_uint (suc n))

IsDigit-Lacks : (s : Bytes) → All IsDigit s → Lacks b'\n' s
IsDigit-Lacks [] h = tt
IsDigit-Lacks (c ∷ s) h = (omega arith, IsDigit-Lacks s h.1)

format_uint-Lacks : (n : ℕ) → Lacks b'\n' (format_uint n)
format_uint-Lacks zero = unfold format_uint in omega arith
format_uint-Lacks (suc n) =
    rw (format_uint-suc n) (IsDigit-Lacks _ (put_digits-IsDigit n _ _ (last-IsDigit (suc n), tt)))

-- A print holds no newline.
pub itoa-Lacks : (z : ℤ) → Lacks b'\n' (itoa z)
unfolding itoa
itoa-Lacks (pos n) = format_uint-Lacks n
itoa-Lacks (negsuc n) = (omega arith, format_uint-Lacks (suc n))
