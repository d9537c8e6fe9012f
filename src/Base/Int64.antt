-- ===== src/Base/Int64.antt =====
-- `int64` arithmetic that can wrap around.
use dbbridge.Base.{ℕ, ◌+◌, ◌*◌, ◌-◌, ◌/◌, ◌%◌, ◌<◌, ◌≡◌, arith, ltb, if◌then◌else◌}
use dbbridge.Base.Int.{ℤ, pos, negsuc, ◌-ℤ◌}

-- The value of the low 64 bits.
unfoldable pub wrap : ℤ → ℤ
wrap (pos n) =
    let m = n % 18446744073709551616 in
    if ltb m 9223372036854775808 then pos m else negsuc (18446744073709551615 - m)
wrap (negsuc n) =
    let m = n % 18446744073709551616 in
    if ltb m 9223372036854775808 then negsuc m else pos (18446744073709551615 - m)

-- A product with a constant.
unfoldable pub times : ℕ → ℤ → ℤ
times k (pos n) = wrap (pos (n * k))
times k (negsuc n) = wrap (ℤ.pos 0 -ℤ pos (n * k + k))

-- The division of Go, towards zero.
unfoldable pub quotient : ℤ → ℕ → ℤ
quotient (pos n) k = pos (n / k)
quotient (negsuc n) k = pos 0 -ℤ pos ((n + 1) / k)

pub wrap_small : (n : ℕ) → n < 9223372036854775808 → wrap (pos n) ≡ pos n
unfolding wrap
wrap_small n h = ground (arith, h)
