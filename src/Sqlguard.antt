-- ===== src/Sqlguard.antt =====
-- internal/sqlguard/sqlguard.go: the lexical check that a statement only reads. A text is the list
-- of its runes; an index of the source is the rest of that list.
pub mod Fuel
pub mod Literals
pub mod Words
use Prim.Native.Char.{code}
use Prim.Native.String.{◌++◌ as str_append}
use dbbridge.Base.{
  ℕ, zero, suc, String, Bool, true, false, not, ◌&&◌, ◌||◌, Option, none, some, List, [], ◌∷◌, ◌++◌,
  length, drop, any, nat_beq, ltb, if◌then◌else◌, Result, ok, err,
}

abbrev pub Text : Type 0
Text = List ℕ

-- The code points of a text of the program.
abbrev pub codes : String → Text
codes String.[] = []
codes (String.◌∷◌ c s) = code c ∷ codes s

-- The package `unicode`, and `strings.ToUpper`.
pub record Unicode : Type 0 where
  pub is_letter : ℕ → Bool
  pub is_digit : ℕ → Bool
  pub is_space : ℕ → Bool
  pub to_upper : Text → Text

abbrev pub text_beq : Text → Text → Bool
text_beq [] [] = true
text_beq (x ∷ xs) (y ∷ ys) = nat_beq x y && text_beq xs ys
text_beq _ _ = false

-- A member of one of the two sets of words.
abbrev is_one_of : List String → Text → Bool
is_one_of [] w = false
is_one_of (k ∷ ks) w = text_beq (codes k) w || is_one_of ks w

abbrev pub write_keywords : List String
write_keywords =
    "ALTER" ∷ "ANALYZE" ∷ "ATTACH" ∷ "BEGIN" ∷ "CALL" ∷ "COMMIT" ∷ "COPY" ∷ "CREATE" ∷ "DEALLOCATE"
    ∷ "DELETE" ∷ "DETACH" ∷ "DO" ∷ "DROP" ∷ "EXEC" ∷ "EXECUTE" ∷ "GRANT" ∷ "HANDLER" ∷ "IMPORT"
    ∷ "INSERT" ∷ "INTO" ∷ "KILL" ∷ "LOAD" ∷ "LOCK" ∷ "MERGE" ∷ "OPTIMIZE" ∷ "PREPARE" ∷ "RENAME"
    ∷ "REPLACE" ∷ "REVOKE" ∷ "ROLLBACK" ∷ "SAVEPOINT" ∷ "SET" ∷ "START" ∷ "SYSTEM" ∷ "TRUNCATE"
    ∷ "UPDATE" ∷ "UPSERT" ∷ "USE" ∷ "VACUUM" ∷ []

abbrev pub read_verbs : List String
read_verbs = "SELECT" ∷ "WITH" ∷ "SHOW" ∷ "EXPLAIN" ∷ "DESC" ∷ "DESCRIBE" ∷ "TABLE" ∷ "VALUES" ∷ []

unfoldable pub is_write_keyword : Text → Bool
is_write_keyword w = is_one_of write_keywords w

unfoldable pub is_read_verb : Text → Bool
is_read_verb w = is_one_of read_verbs w

-- The loop of a line comment stops at the end of the line.
unfoldable pub skip_line : Text → Text
skip_line [] = []
skip_line (c ∷ cs) = elim (nat_beq c 10) [ true ↦ c ∷ cs | false ↦ skip_line cs ]

-- The loop of a block comment, at a depth.
unfoldable pub skip_block : ℕ → Text → Text
skip_block zero cs = cs
skip_block (suc depth) [] = []
skip_block (suc depth) (c ∷ []) = []
skip_block (suc depth) (c ∷ d ∷ cs) = elim (nat_beq c b'/' && nat_beq d b'*') [
  | true ↦ skip_block (suc (suc depth)) cs
  | false ↦ elim (nat_beq c b'*' && nat_beq d b'/') [
    | true ↦ skip_block depth cs
    | false ↦ skip_block (suc depth) (d ∷ cs)
  ]
]

-- `skipQuoted`, past the opening quote. A last rune that stands alone ends the text.
unfoldable pub skip_quoted : ℕ → Text → Text
skip_quoted quote [] = []
skip_quoted quote (c ∷ []) = []
skip_quoted quote (c ∷ d ∷ cs) = elim (nat_beq c 92 && nat_beq quote 39) [
  | true ↦ skip_quoted quote cs
  | false ↦ elim (nat_beq c quote) [
    | false ↦ skip_quoted quote (d ∷ cs)
    | true ↦ elim (nat_beq d quote) [ true ↦ skip_quoted quote cs | false ↦ d ∷ cs ]
  ]
]

unfoldable pub is_word : Unicode → ℕ → Bool
is_word u c = u.is_letter c || u.is_digit c || nat_beq c b'_'

-- `dollarTag`, past the first `$`: the tag and the rest.
unfoldable pub dollar_tag : Unicode → Text → Text → Option (Text × Text)
dollar_tag u tag [] = none
dollar_tag u tag (c ∷ cs) = elim (is_word u c) [
  | true ↦ dollar_tag u (tag ++ c ∷ []) cs
  | false ↦ if nat_beq c b'$' then some (tag ++ c ∷ [], cs) else none
]

unfoldable pub is_prefix : Text → Text → Bool
is_prefix [] cs = true
is_prefix (p ∷ ps) [] = false
is_prefix (p ∷ ps) (c ∷ cs) = nat_beq p c && is_prefix ps cs

-- `skipDollarQuoted`
unfoldable pub skip_dollar_quoted : Text → Text → Text
skip_dollar_quoted tag [] = []
skip_dollar_quoted tag (c ∷ cs) = elim (is_prefix tag (c ∷ cs)) [
  | true ↦ drop (length tag) (c ∷ cs)
  | false ↦ skip_dollar_quoted tag cs
]

-- The variables of `scan`.
pub record Scan : Type 0 where
  pub words : List Text
  pub word : Text
  pub statements : ℕ
  pub pending : Bool

unfoldable pub start : Scan
start = record { words = []; word = []; statements = 0; pending = false }

abbrev pub is_empty : Text → Bool
is_empty [] = true
is_empty (c ∷ cs) = false

unfoldable pub flush : Scan → Scan
flush st =
    if is_empty st.word then st else record st { words = st.words ++ st.word ∷ []; word = [] }

-- The end of a statement, which counts only if it has content.
unfoldable pub end_statement : Scan → Scan
end_statement st =
    if st.pending then record st { statements = suc st.statements; pending = false } else st

abbrev pub next_is : ℕ → Text → Bool
next_is c [] = false
next_is c (d ∷ ds) = nat_beq d c

unfoldable pub is_line_comment : ℕ → Text → Bool
is_line_comment c cs = (nat_beq c b'-' && next_is b'-' cs) || nat_beq c b'#'

unfoldable pub is_block_comment : ℕ → Text → Bool
is_block_comment c cs = nat_beq c b'/' && next_is b'*' cs

unfoldable pub is_quote : ℕ → Bool
is_quote c = nat_beq c 39 || nat_beq c 34 || nat_beq c 96

unfoldable pub step_dollar : Unicode → Scan → ℕ → Text → Scan × Text
step_dollar u st c cs = elim (dollar_tag u (c ∷ []) cs) [
  | some (tag, rest) ↦ (record (flush st) { pending = true }, skip_dollar_quoted tag rest)
  | none ↦ (record st { word = st.word ++ c ∷ [] }, cs)
]

-- One turn of the loop of `scan`, at the rune `c`.
unfoldable pub step : Unicode → Scan → ℕ → Text → Scan × Text
step u st c cs =
    if is_line_comment c cs
    then (flush st, skip_line (c ∷ cs))
    else if is_block_comment c cs
    then (flush st, skip_block 1 (drop 1 cs))
    else if nat_beq c b'$'
    then step_dollar u st c cs
    else if is_quote c
    then (record (flush st) { pending = true }, skip_quoted c cs)
    else if nat_beq c b';'
    then (end_statement (flush st), cs)
    else if is_word u c
    then (record st { word = st.word ++ c ∷ []; pending = true }, cs)
    else if u.is_space c
    then (flush st, cs)
    else (record (flush st) { pending = true }, cs)

-- The loop of `scan`. Each turn takes one rune at least, so the length is enough fuel.
unfoldable pub loop : Unicode → ℕ → Scan → Text → Scan
loop u zero st cs = st
loop u (suc fuel) st [] = st
loop u (suc fuel) st (c ∷ cs) = let (st', rest) = step u st c cs in loop u fuel st' rest

unfoldable pub scan : Unicode → Text → Scan
scan u sql = end_statement (flush (loop u (length sql) start sql))

pub data Rejection : Type 0 where
  statement_empty multiple_statements : Rejection
  wrong_verb forbidden_word : Text → Rejection

-- The loop of `ReadOnly` over the words.
unfoldable pub check_words : Unicode → List Text → Result Rejection (Unit {0})
check_words u [] = ok tt
check_words u (w ∷ ws) =
    let rest = check_words u ws in
    if is_write_keyword (u.to_upper w) then err (forbidden_word (u.to_upper w)) else rest

unfoldable pub check_verb : Unicode → Text → List Text → Result Rejection (Unit {0})
check_verb u w ws =
    if is_read_verb (u.to_upper w) then check_words u (w ∷ ws) else err (wrong_verb (u.to_upper w))

unfoldable pub read_only : Unicode → Text → Result Rejection (Unit {0})
read_only u sql =
    let st = scan u sql in
    elim st.words [
      | [] ↦ err statement_empty
      | w ∷ ws ↦ if ltb 1 st.statements then err multiple_statements else check_verb u w ws
    ]
