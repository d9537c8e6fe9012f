-- ===== src/Sqlguard/Fuel.antt =====
-- The loop of `scan` ends: each turn leaves a shorter text.
use dbbridge.Base.{
  ℕ, zero, suc, ◌≤◌, ◌≡◌, refl, true, some, [], ◌∷◌, ◌++◌, length, drop, arith, Option-cases, inl,
  inr,
}
use dbbridge.Sqlguard.{
  Text, Unicode, Scan, skip_line, skip_block, skip_quoted, dollar_tag, skip_dollar_quoted,
  step_dollar, is_line_comment, step, loop,
}

length-skip_line : (cs : Text) → length (skip_line cs) ≤ length cs
unfolding skip_line
length-skip_line [] = omega arith
length-skip_line (c ∷ cs) = ground (arith, length-skip_line cs)

length-skip_block : (depth : ℕ) (cs : Text) → length (skip_block depth cs) ≤ length cs
unfolding skip_block
length-skip_block zero cs = omega arith
length-skip_block (suc depth) [] = omega arith
length-skip_block (suc depth) (c ∷ []) = omega arith
length-skip_block (suc depth) (c ∷ d ∷ cs) = ground (
  arith,
  length-skip_block (suc (suc depth)) cs,
  length-skip_block depth cs,
  length-skip_block (suc depth) (d ∷ cs),
)

length-skip_quoted : (quote : ℕ) (cs : Text) → length (skip_quoted quote cs) ≤ length cs
unfolding skip_quoted
length-skip_quoted quote [] = omega arith
length-skip_quoted quote (c ∷ []) = omega arith
length-skip_quoted quote (c ∷ d ∷ cs) =
    ground (arith, length-skip_quoted quote cs, length-skip_quoted quote (d ∷ cs))

length-drop : (n : ℕ) (cs : Text) → length (drop n cs) ≤ length cs
length-drop zero cs = omega arith
length-drop (suc n) [] = omega arith
length-drop (suc n) (c ∷ cs) = omega (arith, length-drop n cs)

length-skip_dollar_quoted : (tag cs : Text) → length (skip_dollar_quoted tag cs) ≤ length cs
unfolding skip_dollar_quoted
length-skip_dollar_quoted tag [] = omega arith
length-skip_dollar_quoted tag (c ∷ cs) =
    ground (arith, length-drop (length tag) (c ∷ cs), length-skip_dollar_quoted tag cs)

length-dollar_tag :
    (u : Unicode) (tag cs found rest : Text)
    → dollar_tag u tag cs ≡ some (found, rest)
    → length rest ≤ length cs
unfolding dollar_tag
length-dollar_tag u tag [] found rest h = cc
length-dollar_tag u tag (c ∷ cs) found rest h =
    ground (arith, length-dollar_tag u (tag ++ c ∷ []) cs found rest)

length-step_dollar :
    (u : Unicode) (st : Scan) (c : ℕ) (cs : Text) → length (step_dollar u st c cs).1 ≤ length cs
unfolding step_dollar
length-step_dollar u st c cs = elim (Option-cases (dollar_tag u (c ∷ []) cs)) [
  | inl e ↦ ground arith
  | inr ((tag, rest), e) ↦
      ground (arith, length-dollar_tag u (c ∷ []) cs tag rest e, length-skip_dollar_quoted tag rest)
]

-- A line comment does not begin with a line feed.
length-line_comment :
    (c : ℕ) (cs : Text) → is_line_comment c cs ≡ true → length (skip_line (c ∷ cs)) ≤ length cs
unfolding skip_line is_line_comment
length-line_comment c cs h = ground (arith, length-skip_line cs)

length-step : (u : Unicode) (st : Scan) (c : ℕ) (cs : Text) → length (step u st c cs).1 ≤ length cs
unfolding step
length-step u st c cs = ground (
  arith,
  length-line_comment c cs,
  length-drop 1 cs,
  length-skip_block 1 (drop 1 cs),
  length-step_dollar u st c cs,
  length-skip_quoted c cs,
)

-- The fuel of `scan` is enough: the loop gives the same result with any fuel that is at least the
-- length of the text.
pub loop_fuel :
    (u : Unicode) (n : ℕ) (st : Scan) (cs : Text)
    → length cs ≤ n
    → loop u n st cs ≡ loop u (length cs) st cs
unfolding loop
loop_fuel u n st cs h = enough n (length cs) st cs h (omega arith)
  where
    enough :
        (n m : ℕ) (st : Scan) (cs : Text)
        → length cs ≤ n
        → length cs ≤ m
        → loop u n st cs ≡ loop u m st cs
    enough zero zero st cs h k = refl
    enough zero (suc m) st [] h k = refl
    enough (suc n) zero st [] h k = refl
    enough (suc n) (suc m) st [] h k = refl
    enough zero m st (c ∷ cs) h k = absurd (omega arith)
    enough n zero st (c ∷ cs) h k = absurd (omega arith)
    enough (suc n) (suc m) st (c ∷ cs) h k =
        let (st', rest) = step u st c cs in
        enough n m st' rest (omega (arith, length-step u st c cs))
          (omega (arith, length-step u st c cs))

-- The scanner from a state on, with enough fuel.
abbrev pub scan_from : Unicode → Scan → Text → Scan
scan_from u st cs = loop u (length cs) st cs

pub scan_from-step :
    (u : Unicode) (st st' : Scan) (c : ℕ) (cs rest : Text)
    → step u st c cs ≡ (st', rest)
    → scan_from u st (c ∷ cs) ≡ scan_from u st' rest
unfolding loop
scan_from-step u st st' c cs rest h =
    ground (arith, length-step u st c cs, loop_fuel u (length cs) st' rest)
