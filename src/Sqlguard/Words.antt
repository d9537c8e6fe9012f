-- ===== src/Sqlguard/Words.antt =====
-- Statements of bare words: what `scan` and `ReadOnly` make of them.
use dbbridge.Base.{
  append-nil, append_assoc, ℕ, suc, ◌+◌, ◌≡◌, refl, sym, ◌∙◌, ap, ap₂, ◌≢◌, ◌↔◌, Bool, true, false,
  List, [], ◌∷◌, ◌++◌, length, All, arith, inl, inr, ok, Bool-cases,
}
use dbbridge.Sqlguard.{
  Text, Unicode, Scan, is_word, flush, end_statement, start, step, loop, scan, check_words,
  check_verb, read_only, is_write_keyword, is_read_verb, is_line_comment, is_block_comment,
  is_quote,
}
use dbbridge.Sqlguard.Fuel.{scan_from, scan_from-step}

-- What `unicode` says of the ASCII characters that the scanner tests for.
pub record UnicodeLaws (u : Unicode) : Type 0 where
  -- none of space " # $ ' - / ; and ` is a letter or a digit
  pub word_apart :
      (c : ℕ)
      → is_word u c ≡ true
      → (c ≢ 32)
        × (c ≢ 34)
        × (c ≢ 35)
        × (c ≢ 36)
        × (c ≢ 39)
        × (c ≢ 45)
        × (c ≢ 47)
        × (c ≢ 59)
        × (c ≢ 96)
  pub space : u.is_space 32 ≡ true

-- The words, each with a space behind it.
abbrev pub unwords : List Text → Text
unwords [] = []
unwords (w ∷ ws) = w ++ 32 ∷ unwords ws

-- The statements, each with a semicolon behind it.
abbrev pub script : List (List Text) → Text
script [] = []
script (ws ∷ wss) = unwords ws ++ b';' ∷ script wss

abbrev pub concat : List (List Text) → List Text
concat [] = []
concat (ws ∷ wss) = ws ++ concat wss

-- A word that is not empty.
abbrev pub IsBare : Unicode → Text → Type 0
IsBare u w = (w ≢ []) × All (λ c. is_word u c ≡ true) w

-- A statement with a word.
abbrev pub IsClause : Unicode → List Text → Type 0
IsClause u ws = (ws ≢ []) × All (IsBare u) ws

-- The scanner between two words, after `words` and `count` statements.
abbrev pub between : List Text → ℕ → Bool → Scan
between words count pending = record {
  words = words;
  word = [];
  statements = count;
  pending = pending;
}

module _ (u : Unicode) (laws : UnicodeLaws u) where
  step-word :
      (st : Scan) (c : ℕ) (cs : Text)
      → is_word u c ≡ true
      → step u st c cs ≡ (record st { word = st.word ++ c ∷ []; pending = true }, cs)
  unfolding step is_line_comment is_block_comment is_quote
  step-word st c cs h = let apart = laws.word_apart c h in ground arith

  step-space : (st : Scan) (cs : Text) → step u st 32 cs ≡ (flush st, cs)
  unfolding step is_line_comment is_block_comment is_quote
  step-space st cs = elim (Bool-cases (is_word u 32)) [
    | inl t ↦ absurd ((laws.word_apart 32 t).0 refl)
    | inr t ↦ rw (t, laws.space)
  ]

  step-semicolon : (st : Scan) (cs : Text) → step u st b';' cs ≡ (end_statement (flush st), cs)
  unfolding step is_line_comment is_block_comment is_quote
  step-semicolon st cs = refl

  -- The letters of a word, after some of them.
  scan_from-letters :
      (words : List Text) (word w : Text) (count : ℕ) (cs : Text)
      → All (λ c. is_word u c ≡ true) w
      → scan_from u
          (record { words = words; word = word; statements = count; pending = true })
          (w ++ cs)
        ≡ scan_from u
            (record { words = words; word = word ++ w; statements = count; pending = true })
            cs
  scan_from-letters words word [] count cs h = rw (append-nil word)
  scan_from-letters words word (c ∷ w) count cs h =
      let st : Scan = record { words = words; word = word; statements = count; pending = true } in
      scan_from-step u st _ c (w ++ cs) (w ++ cs) (step-word st c (w ++ cs) h.0)
      ∙ scan_from-letters words (word ++ c ∷ []) w count cs h.1
      ∙ ap (λ (t : Text). scan_from u (record st { word = t }) cs) (append_assoc word (c ∷ []) w)

  -- A whole word and the space behind it.
  scan_from-word :
      (words : List Text) (w : Text) (count : ℕ) (pending : Bool) (cs : Text)
      → IsBare u w
      → scan_from u (between words count pending) (w ++ 32 ∷ cs)
        ≡ scan_from u (between (words ++ w ∷ []) count true) cs
  unfolding flush
  scan_from-word words [] count pending cs h = absurd (h.0 refl)
  scan_from-word words (c ∷ w) count pending cs h =
      let st : Scan = record { words = words; word = c ∷ w; statements = count; pending = true } in
      scan_from-step u (between words count pending) _ c (w ++ 32 ∷ cs) (w ++ 32 ∷ cs)
        (step-word (between words count pending) c (w ++ 32 ∷ cs) h.1.0)
      ∙ scan_from-letters words (c ∷ []) w count (32 ∷ cs) h.1.1
      ∙ scan_from-step u st _ 32 cs cs (step-space st cs)

  pub scan_from-unwords :
      (words ws : List Text) (count : ℕ) (pending : Bool) (cs : Text)
      → IsClause u ws
      → scan_from u (between words count pending) (unwords ws ++ cs)
        ≡ scan_from u (between (words ++ ws) count true) cs
  scan_from-unwords words [] count pending cs h = absurd (h.0 refl)
  scan_from-unwords words (w ∷ []) count pending cs h =
      ap (λ t. scan_from u (between words count pending) t) (append_assoc w (32 ∷ []) cs)
      ∙ scan_from-word words w count pending cs h.1.0
  scan_from-unwords words (w ∷ v ∷ ws) count pending cs h =
      ap (λ t. scan_from u (between words count pending) t)
        (append_assoc w (32 ∷ unwords (v ∷ ws)) cs)
      ∙ scan_from-word words w count pending (unwords (v ∷ ws) ++ cs) h.1.0
      ∙ scan_from-unwords (words ++ w ∷ []) (v ∷ ws) count true cs ((λ e. cc), h.1.1)
      ∙ ap (λ t. scan_from u (between t count true) cs) (append_assoc words (w ∷ []) (v ∷ ws))

  scan_from-script :
      (words : List Text) (wss : List (List Text)) (count : ℕ)
      → All (IsClause u) wss
      → scan_from u (between words count false) (script wss)
        ≡ between (words ++ concat wss) (count + length wss) false
  unfolding loop flush end_statement
  scan_from-script words [] count h =
      ap₂ (λ t n. between t n false) (sym (append-nil words)) (omega arith)
  scan_from-script words (ws ∷ wss) count h =
      let st = between (words ++ ws) count true in
      scan_from-unwords words ws count false (b';' ∷ script wss) h.0
      ∙ scan_from-step u st _ b';' (script wss) (script wss) (step-semicolon st (script wss))
      ∙ scan_from-script (words ++ ws) wss (suc count) h.1
      ∙ ap₂ (λ t n. between t n false) (append_assoc words ws (concat wss)) (omega arith)

  -- Statements of bare words come back: `scan` finds their words, in order, and counts the
  -- statements.
  pub scan-script :
      (wss : List (List Text))
      → All (IsClause u) wss
      → scan u (script wss) ≡ between (concat wss) (length wss) false
  unfolding scan start flush end_statement
  scan-script wss h =
      ap (λ st. end_statement (flush st)) (scan_from-script [] wss 0 h)
      ∙ ap (λ n. between (concat wss) n false) (omega arith)

check_words_iff :
    (u : Unicode) (ws : List Text)
    → (check_words u ws ≡ ok tt) ↔ All (λ w. is_write_keyword (u.to_upper w) ≡ false) ws
unfolding check_words
check_words_iff u [] = ground arith
check_words_iff u (w ∷ ws) = ground (arith, check_words_iff u ws)

-- `ReadOnly` accepts statements of bare words exactly when there is one statement, its first
-- word is a read verb and none of its words is a write keyword, in whatever case it is written.
pub read_only_iff-script :
    (u : Unicode) (laws : UnicodeLaws u) (w : Text) (ws : List Text) (wss : List (List Text))
    → All (IsClause u) ((w ∷ ws) ∷ wss)
    → (read_only u (script ((w ∷ ws) ∷ wss)) ≡ ok tt) ↔ (
        (wss ≡ [])
        × (is_read_verb (u.to_upper w) ≡ true)
        × All (λ v. is_write_keyword (u.to_upper v) ≡ false) (w ∷ ws))
unfolding read_only check_verb
read_only_iff-script u laws w ws [] h =
    ground (arith, scan-script u laws ((w ∷ ws) ∷ []) h, append-nil ws, check_words_iff u (w ∷ ws))
read_only_iff-script u laws w ws (vs ∷ wss) h =
    ground (arith, scan-script u laws ((w ∷ ws) ∷ vs ∷ wss) h)
