-- ===== src/Transport/Rest/ByteRange.antt =====
-- internal/transport/rest/server.go: `parseByteRange`, and `strconv.ParseInt` of a decimal text.
use dbbridge.Base.{
  ℕ, ◌+◌, ◌*◌, ◌-◌, Bool, true, false, ◌&&◌, Option, none, some, [], ◌∷◌, nat_beq, ltb, leb,
  if◌then◌else◌,
}
use dbbridge.Base.Int.{ℤ, pos, negsuc, ltb_ℤ, ◌-ℤ◌}
use dbbridge.Sqlguard.{Text, codes}

-- The digits, read from the left.
unfoldable pub digits : ℕ → Text → Option ℕ
digits acc [] = some acc
digits acc (c ∷ cs) =
    let rest = digits (acc * 10 + (c - 48)) cs in if leb 48 c && leb c 57 then rest else none

unfoldable pub unsigned : Text → Option ℕ
unfolding digits
unsigned [] = none
unsigned (c ∷ cs) = digits 0 (c ∷ cs)

-- The value in the range of 64 bits.
abbrev in_range : Bool → Option ℕ → Option ℤ
in_range negative none = none
in_range true (some n) = if leb n 9223372036854775808 then some (pos 0 -ℤ pos n) else none
in_range false (some n) = if ltb n 9223372036854775808 then some (pos n) else none

-- `strconv.ParseInt(text, 10, 64)`: an optional sign (45 and 43) and digits.
unfoldable pub parse_int : Text → Option ℤ
unfolding unsigned
parse_int [] = none
parse_int (c ∷ cs) =
    if nat_beq c 45
    then in_range true (unsigned cs)
    else if nat_beq c 43
    then in_range false (unsigned cs)
    else in_range false (unsigned (c ∷ cs))

-- The text after a prefix.
unfoldable pub trim_prefix : Text → Text → Option Text
trim_prefix [] cs = some cs
trim_prefix (p ∷ ps) [] = none
trim_prefix (p ∷ ps) (c ∷ cs) = let rest = trim_prefix ps cs in if nat_beq p c then rest else none

-- The parts before and after the first `-`.
unfoldable pub split_dash : Text → Option (Text × Text)
split_dash [] = none
split_dash (c ∷ cs) =
    let rest = split_dash cs in
    if nat_beq c 45
    then some ([], cs)
    else elim rest [ none ↦ none | some (before, after) ↦ some (c ∷ before, after) ]

-- The end of a range; -1 is an open one.
abbrev pub range_end : ℤ → Text → Option (ℤ × ℤ)
range_end start [] = some (start, negsuc 0)
range_end start (c ∷ cs) = elim (parse_int (c ∷ cs)) [
  | none ↦ none
  | some e ↦ if ltb_ℤ e start then none else some (start, e)
]

unfoldable pub parse_byte_range : Text → Option (ℤ × ℤ)
parse_byte_range header = elim (trim_prefix (codes "bytes=") header) [
  | none ↦ none
  | some spec ↦ elim (split_dash spec) [
    | none ↦ none
    | some (before, after) ↦ elim (parse_int before) [
      | none ↦ none
      | some start ↦ if ltb_ℤ start (pos 0) then none else range_end start after
    ]
  ]
]
