-- ===== src/Sqlguard/Literals.antt =====
-- Literals and quoted identifiers: what stands in them has no influence.
use dbbridge.Base.{ℕ, ◌≡◌, refl, sym, ◌∙◌, ap, ◌≢◌, true, false, List, [], ◌∷◌, ◌++◌, All, arith}
use dbbridge.Sqlguard.{
  Text, Unicode, Scan, skip_quoted, flush, end_statement, step, scan, is_line_comment,
  is_block_comment, is_quote, next_is, start,
}
use dbbridge.Sqlguard.Fuel.{scan_from, scan_from-step}
use dbbridge.Sqlguard.Words.{UnicodeLaws, IsClause, unwords, between, scan_from-unwords}

-- A rune of the inside of a literal: neither its quote nor a backslash.
abbrev pub IsInner : ℕ → ℕ → Type 0
IsInner quote c = (c ≢ quote) × (c ≢ 92)

skip_quoted-literal :
    (quote : ℕ) (body rest : Text)
    → is_quote quote ≡ true
    → All (IsInner quote) body
    → next_is quote rest ≡ false
    → skip_quoted quote (body ++ quote ∷ rest) ≡ rest
unfolding skip_quoted is_quote
skip_quoted-literal quote [] [] q b n = refl
skip_quoted-literal quote [] (d ∷ ds) q b n = ground arith
skip_quoted-literal quote (c ∷ []) rest q b n =
    ground (arith, skip_quoted-literal quote [] rest q tt n)
skip_quoted-literal quote (c ∷ d ∷ cs) rest q b n =
    ground (arith, skip_quoted-literal quote (d ∷ cs) rest q b.1 n)

step-quote :
    (u : Unicode) (st : Scan) (quote : ℕ) (cs : Text)
    → is_quote quote ≡ true
    → step u st quote cs ≡ (record (flush st) { pending = true }, skip_quoted quote cs)
unfolding step is_quote is_line_comment is_block_comment
step-quote u st quote cs q = ground arith

module _ (u : Unicode) (laws : UnicodeLaws u) (ws : List Text) (quote : ℕ) (rest : Text) where
  scan_from-literal :
      (body : Text)
      → IsClause u ws
      → is_quote quote ≡ true
      → next_is quote rest ≡ false
      → All (IsInner quote) body
      → scan u (unwords ws ++ (quote ∷ (body ++ (quote ∷ rest))))
        ≡ end_statement (flush (scan_from u (between ws 0 true) rest))
  unfolding scan start flush
  scan_from-literal body c q n b =
      let st = between ws 0 true in
      let text = quote ∷ (body ++ (quote ∷ rest)) in
      ap (λ t. end_statement (flush t))
        (scan_from-unwords u laws [] ws 0 false text c
          ∙ scan_from-step u st st quote (body ++ quote ∷ rest) rest (
              step-quote u st quote (body ++ quote ∷ rest) q
              ∙ ap (λ (t : Text). (st, t)) (skip_quoted-literal quote body rest q b n)))

  -- What stands in a literal or a quoted identifier, behind any bare words, has no influence on
  -- the words and the statements that `scan` finds, whatever follows. The two texts in the quotes
  -- have neither that quote nor a backslash, and what follows does not begin with the quote.
  pub scan-literal :
      (body other : Text)
      → IsClause u ws
      → is_quote quote ≡ true
      → next_is quote rest ≡ false
      → All (IsInner quote) body
      → All (IsInner quote) other
      → scan u (unwords ws ++ (quote ∷ (body ++ (quote ∷ rest))))
        ≡ scan u (unwords ws ++ (quote ∷ (other ++ (quote ∷ rest))))
  scan-literal body other c q n b o =
      scan_from-literal body c q n b ∙ sym (scan_from-literal other c q n o)
