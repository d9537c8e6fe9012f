-- ===== src/Scenarios/Guard.antt =====
-- Scenarios for the SQL guard, with the ASCII part of `unicode`.
use dbbridge.Base.{
  ℕ, ◌≡◌, refl, ◌↔◌, ◌-◌, true, false, ◌&&◌, ◌||◌, List, [], ◌∷◌, ◌++◌, map, All, arith, leb,
  nat_beq, ok, if◌then◌else◌,
}
use dbbridge.Sqlguard.{
  Text, Unicode, codes, is_word, is_quote, start, loop, scan, read_only, is_read_verb,
  is_write_keyword, step, flush, end_statement, skip_quoted, check_verb, check_words,
  is_line_comment, is_block_comment,
}
use dbbridge.Sqlguard.Fuel.{loop_fuel}
use dbbridge.Sqlguard.Words.{UnicodeLaws, IsClause, script, unwords, read_only_iff-script}
use dbbridge.Sqlguard.Literals.{scan-literal}

abbrev ascii_upper : ℕ → ℕ
ascii_upper c = if leb 97 c && leb c 122 then c - 32 else c

abbrev ascii : Unicode
ascii = record {
  is_letter = λ c. (leb 97 c && leb c 122) || (leb 65 c && leb c 90);
  is_digit = λ c. leb 48 c && leb c 57;
  is_space = λ c. nat_beq c 32 || (leb 9 c && leb c 13);
  to_upper = λ w. map ascii_upper w;
}

ascii_laws : UnicodeLaws ascii
unfolding is_word
ascii_laws = record { word_apart = λ c h. ground arith; space = refl }

abbrev drop_word : Text
drop_word = codes "dRop"

abbrev table_word : Text
table_word = codes "t"

drop-IsClause : IsClause ascii (drop_word ∷ table_word ∷ [])
unfolding is_word
drop-IsClause =
    ((λ h. cc), (((λ h. cc), (refl, (refl, (refl, (refl, tt))))), (((λ h. cc), (refl, tt)), tt)))

read_only_iff-script_example :
    (read_only ascii (script ((drop_word ∷ table_word ∷ []) ∷ [])) ≡ ok tt) ↔ (
      ◌≡◌ {A = List (List Text)} [] []
      × (is_read_verb (ascii.to_upper drop_word) ≡ true)
      × All (λ v. is_write_keyword (ascii.to_upper v) ≡ false) (drop_word ∷ table_word ∷ []))
read_only_iff-script_example =
    read_only_iff-script ascii ascii_laws drop_word (table_word ∷ []) [] (drop-IsClause, tt)

loop_fuel_example : loop ascii 9 start (codes "a -- b") ≡ loop ascii 6 start (codes "a -- b")
loop_fuel_example = loop_fuel ascii 9 start (codes "a -- b") (omega arith)

-- A keyword in a literal is no more than a letter in one.
scan-literal_example :
    scan ascii
      (unwords (drop_word ∷ table_word ∷ []) ++ (39 ∷ (codes "; DROP" ++ (39 ∷ codes ";"))))
    ≡ scan ascii (unwords (drop_word ∷ table_word ∷ []) ++ (39 ∷ (codes "x" ++ (39 ∷ codes ";"))))
unfolding is_quote
scan-literal_example =
    scan-literal ascii ascii_laws (drop_word ∷ table_word ∷ []) 39 (codes ";") (codes "; DROP")
      (codes "x") drop-IsClause refl refl (ground arith) (ground arith)

-- With the backslash of MySQL, the quote behind it does not end the literal; where it does, as in
-- standard SQL, the DROP that follows is a statement.
read_only_backslash : read_only ascii (codes "SELECT '\\'; DROP TABLE t; --'") ≡ ok tt
unfolding read_only scan end_statement flush loop step is_line_comment is_block_comment is_quote
    is_word skip_quoted start check_verb is_read_verb check_words is_write_keyword
read_only_backslash = refl
