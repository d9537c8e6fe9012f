-- ===== src/Transport/Rest/Formats.antt =====
-- What a client writes is what the API reads: the header of a range, and the durations of the options.
use dbbridge.Base.{
  ℕ, zero, suc, ◌+◌, ◌*◌, ◌-◌, ◌/◌, ◌%◌, ◌≤◌, ◌<◌, String, ◌≡◌, ◌≢◌, refl, ◌∙◌, Option, none, some,
  [], ◌∷◌, ◌++◌, arith, ltb, if◌then◌else◌,
}
use dbbridge.Base.Int.{ℤ, pos}
use dbbridge.Base.Int64.{wrap, times, quotient}
use dbbridge.Sqlguard.{Text, codes}
use dbbridge.Transport.Rest.ByteRange.{
  digits, unsigned, parse_int, trim_prefix, split_dash, range_end, parse_byte_range,
}
use dbbridge.Transport.Rest.Handlers.{StartQueryPayload, options_of}
use dbbridge.Transport.Rest.Dto.{to_options_dto}

-- The decimal digits of a number, with at most as many as the fuel.
abbrev pub decimal : ℕ → ℕ → Text
decimal zero n = []
decimal (suc fuel) n =
    let before = decimal fuel (n / 10) in
    if ltb n 10 then (48 + n) ∷ [] else before ++ (48 + n % 10) ∷ []

digits-append :
    (acc : ℕ) (xs : Text) (d n : ℕ)
    → d < 10
    → digits acc xs ≡ some n
    → digits acc (xs ++ (48 + d) ∷ []) ≡ some (n * 10 + d)
unfolding digits
digits-append acc [] d n p h = ground (arith, h, p)
digits-append acc (x ∷ xs) d n p h =
    ground (arith, h, p, digits-append (acc * 10 + (x - 48)) xs d n p)

-- Enough digits: a number below ten to the power of the fuel.
abbrev pub power_of_ten : ℕ → ℕ
power_of_ten zero = 1
power_of_ten (suc n) = 10 * power_of_ten n

digits-decimal :
    (fuel n : ℕ) → n < power_of_ten fuel → 0 < fuel → digits 0 (decimal fuel n) ≡ some n
unfolding digits
digits-decimal zero n h p = absurd (omega (arith, p))
digits-decimal (suc zero) n h p = ground (arith, h)
digits-decimal (suc (suc fuel)) n h p = ground (
  arith,
  h,
  digits-append 0 (decimal (suc fuel) (n / 10)) (n % 10) (n / 10),
  digits-decimal (suc fuel) (n / 10) (omega (arith, h)) (omega arith),
)

abbrev AreDigits : Text → Type 0
AreDigits [] = Unit
AreDigits (c ∷ cs) = (48 ≤ c) × ((c ≤ 57) × AreDigits cs)

append-AreDigits : (xs : Text) (d : ℕ) → d < 10 → AreDigits xs → AreDigits (xs ++ (48 + d) ∷ [])
append-AreDigits [] d p h = (omega arith, (omega (arith, p), tt))
append-AreDigits (x ∷ xs) d p h = (h.0, (h.1.0, append-AreDigits xs d p h.1.1))

decimal-AreDigits : (fuel n : ℕ) → AreDigits (decimal fuel n)
decimal-AreDigits zero n = tt
decimal-AreDigits (suc fuel) n = ground (
  arith,
  decimal-AreDigits fuel (n / 10),
  append-AreDigits (decimal fuel (n / 10)) (n % 10) (omega arith) (decimal-AreDigits fuel (n / 10)),
)

unsigned-digits : (cs : Text) (n : ℕ) → 0 < n → digits 0 cs ≡ some n → unsigned cs ≡ some n
unfolding unsigned digits
unsigned-digits [] n p h = ground (arith, p, h)
unsigned-digits (c ∷ cs) n p h = h

unsigned-decimal :
    (fuel n : ℕ) → n < power_of_ten (suc fuel) → unsigned (decimal (suc fuel) n) ≡ some n
unfolding unsigned digits
unsigned-decimal fuel zero h = ground arith
unsigned-decimal fuel (suc n) h =
    unsigned-digits (decimal (suc fuel) (suc n)) (suc n) (omega arith)
      (digits-decimal (suc fuel) (suc n) h (omega arith))

parse_int-digits :
    (cs : Text) (n : ℕ)
    → AreDigits cs
    → n < 9223372036854775808
    → unsigned cs ≡ some n
    → parse_int cs ≡ some (pos n)
unfolding parse_int unsigned
parse_int-digits [] n d p h = ground (arith, h)
parse_int-digits (c ∷ cs) n d p h = ground (arith, h, d, p)

abbrev pub number : ℕ → Text
number n = decimal 19 n

parse_int-number : (n : ℕ) → n < 9223372036854775808 → parse_int (number n) ≡ some (pos n)
parse_int-number n p =
    parse_int-digits (number n) n (decimal-AreDigits 19 n) p
      (unsigned-decimal 18 n (omega (arith, p)))

trim_prefix-append : (ps cs : Text) → trim_prefix ps (ps ++ cs) ≡ some cs
unfolding trim_prefix
trim_prefix-append [] cs = refl
trim_prefix-append (p ∷ ps) cs = ground (arith, trim_prefix-append ps cs)

split_dash-append : (xs ys : Text) → AreDigits xs → split_dash (xs ++ 45 ∷ ys) ≡ some (xs, ys)
unfolding split_dash
split_dash-append [] ys d = ground arith
split_dash-append (x ∷ xs) ys d = ground (arith, d, split_dash-append xs ys d.1.1)

-- The header for the bytes from a start, up to an end if there is one.
abbrev end_text : Option ℕ → Text
end_text none = []
end_text (some end) = number end

abbrev pub range_text : ℕ → Option ℕ → Text
range_text start end = codes "bytes=" ++ number start ++ 45 ∷ end_text end

abbrev pub end_value : Option ℕ → ℤ
end_value none = ℤ.negsuc 0
end_value (some end) = pos end

abbrev pub IsRange : ℕ → Option ℕ → Type 0
IsRange start none = start < 9223372036854775808
IsRange start (some end) = (start ≤ end) × (end < 9223372036854775808)

parse_int-nil : (n : ℕ) → parse_int [] ≢ some (pos n)
unfolding parse_int
parse_int-nil n h = ground (arith, h)

range_end-number :
    (start end : ℕ) (after : Text)
    → start ≤ end
    → parse_int after ≡ some (pos end)
    → range_end (pos start) after ≡ some (pos start, pos end)
range_end-number start end [] h p = absurd (parse_int-nil end p)
range_end-number start end (c ∷ cs) h p = rw (range_end, p) (ground (arith, h))

parse_byte_range-range_end :
    (header spec before after : Text) (start : ℕ)
    → trim_prefix (codes "bytes=") header ≡ some spec
    → split_dash spec ≡ some (before, after)
    → parse_int before ≡ some (pos start)
    → parse_byte_range header ≡ range_end (pos start) after
unfolding parse_byte_range trim_prefix
parse_byte_range-range_end header spec before after start t d p = rw (t, d, p) (ground arith)

range_text-range_end :
    (start : ℕ) (end : Option ℕ)
    → start < 9223372036854775808
    → parse_byte_range (range_text start end) ≡ range_end (pos start) (end_text end)
range_text-range_end start end h =
    parse_byte_range-range_end (range_text start end) (number start ++ 45 ∷ end_text end)
      (number start) (end_text end) start
      (trim_prefix-append (codes "bytes=") (number start ++ 45 ∷ end_text end))
      (split_dash-append (number start) (end_text end) (decimal-AreDigits 19 start))
      (parse_int-number start h)

-- The header of every range that 64 bits can hold is read as that range.
pub parse_byte_range-range_text :
    (start : ℕ) (end : Option ℕ)
    → IsRange start end
    → parse_byte_range (range_text start end) ≡ some (pos start, end_value end)
parse_byte_range-range_text start none h = range_text-range_end start none h
parse_byte_range-range_text start (some end) h =
    range_text-range_end start (some end) (omega (arith, h.0, h.1))
    ∙ range_end-number start end (number end) h.0 (parse_int-number end h.1)

-- The durations that a client submits, in milliseconds and in seconds, come back in the reply as they
-- were, if they are not negative and their nanoseconds fit 64 bits.
pub to_options_dto-options_of :
    (payload : StartQueryPayload) (key : String) (ms ttl : ℕ)
    → payload.timeout_ms ≡ pos ms
    → payload.result_ttl_seconds ≡ pos ttl
    → ms * 1_000_000 < 9223372036854775808
    → ttl * 1_000_000_000 < 9223372036854775808
    → let dto = to_options_dto (options_of payload key) in
      (dto.timeout_ms ≡ payload.timeout_ms) × (dto.result_ttl_seconds ≡ payload.result_ttl_seconds)
unfolding to_options_dto options_of times quotient wrap
to_options_dto-options_of payload key ms ttl m t p q = ground (arith, m, t, p, q)
