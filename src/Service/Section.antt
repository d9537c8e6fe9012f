-- ===== src/Service/Section.antt =====
-- internal/core/service/service.go: `sectionReadCloser`, which serves a range of the bytes of a reader.
-- `io.Reader` and `io.CopyN` are parameters.
pub mod Delivery
use dbbridge.Base.{
  ℕ, zero, suc, ◌+◌, ◌-◌, ◌≤◌, ◌<◌, ◌≡◌, Bool, true, false, ◌&&◌, Option, none, some, List, [], ◌∷◌,
  ◌++◌, drop, length, ltb, leb, if◌then◌else◌,
}
use dbbridge.Base.Int.{ℤ, pos, pos_part, ltb_ℤ, ◌-ℤ◌}
use dbbridge.Domain.{Error}

pub data ReadError : Type 0 where
  eof : ReadError
  read_failed : Error → ReadError

-- A reader of values of `B` with state `R`.
pub record Reader (B R : Type 0) : Type 0 where
  -- `Read` into a buffer of this length: the values read, and an error that may come with them
  pub read : ℕ → R → (List B × Option ReadError) × R
  -- `io.CopyN` into `io.Discard`: how many values were skipped
  pub copy_n : ℕ → R → (ℕ × Option ReadError) × R

pub record SectionReadCloser (R : Type 0) : Type 0 where
  pub r : R
  pub offset : ℤ
  pub limit : ℤ
  pub consumed : ℤ

abbrev pub new_section_read_closer : {R : Type 0} → R → ℤ → ℤ → SectionReadCloser R
new_section_read_closer r offset limit = record {
  r = r;
  offset = offset;
  limit = limit;
  consumed = pos 0;
}

module _ {R : Type 0} where
  -- `src.limit > 0 && src.read >= src.limit`
  abbrev pub is_served : SectionReadCloser R → Bool
  is_served src = ltb_ℤ (pos 0) src.limit && leb (pos_part src.limit) (pos_part src.consumed)

  -- How much of a buffer is filled.
  abbrev pub to_read : ℕ → SectionReadCloser R → ℕ
  to_read len src =
      let remaining = pos_part src.limit - pos_part src.consumed in
      if ltb_ℤ (pos 0) src.limit then (if ltb remaining len then remaining else len) else len

module _ {B R : Type 0} (rd : Reader B R) where
  abbrev with_eof : Bool → Option ReadError → Option ReadError
  with_eof served none = if served then some eof else none
  with_eof served (some e) = some e

  -- `Read` once the offset has been skipped.
  unfoldable pub read_part :
      ℕ → SectionReadCloser R → (List B × Option ReadError) × SectionReadCloser R
  read_part len src =
      if is_served src
      then (([], some eof), src)
      else let ((bytes, e), r) = rd.read (to_read len src) src.r in
        let src' = record src { r = r; consumed = pos (pos_part src.consumed + length bytes) } in
        ((bytes, with_eof (is_served src') e), src')

  -- After the skip of the offset, which may have ended in an error.
  abbrev pub skipped :
      ℕ → Option ReadError → SectionReadCloser R → (List B × Option ReadError) × SectionReadCloser R
  skipped len (some x) src = (([], some x), src)
  skipped len none src = read_part len src

  unfoldable pub read : ℕ → SectionReadCloser R → (List B × Option ReadError) × SectionReadCloser R
  read len src =
      let ((discarded, e), r) = rd.copy_n (pos_part src.offset) src.r in
      let src' = record src { r = r; offset = src.offset -ℤ pos discarded } in
      if ltb_ℤ (pos 0) src.offset then skipped len e src' else read_part len src

-- What the documentation of `io` says of a reader: `rest` is what is still to come.
pub record ReaderLaws {B R : Type 0} (rd : Reader B R) : Type 0 where
  pub rest : R → List B
  pub read_rest :
      (len : ℕ) (r r' : R) (bytes : List B) (e : Option ReadError)
      → rd.read len r ≡ ((bytes, e), r')
      → (rest r ≡ bytes ++ rest r') × (length bytes ≤ len)
  pub read_eof :
      (len : ℕ) (r r' : R) (bytes : List B) → rd.read len r ≡ ((bytes, some eof), r') → rest r' ≡ []
  pub copy_n_rest :
      (n : ℕ) (r r' : R) (copied : ℕ) (e : Option ReadError)
      → rd.copy_n n r ≡ ((copied, e), r')
      → (rest r' ≡ drop copied (rest r)) × (copied ≤ n)
  pub copy_n_all :
      (n : ℕ) (r r' : R) (copied : ℕ) → rd.copy_n n r ≡ ((copied, none), r') → copied ≡ n
  pub copy_n_eof :
      (n : ℕ) (r r' : R) (copied : ℕ) → rd.copy_n n r ≡ ((copied, some eof), r') → rest r' ≡ []

-- A reader that only ends: each call brings something, or the end. The body of a stored result that is
-- there is one.
pub record IsSteady {B R : Type 0} (rd : Reader B R) : Type 0 where
  pub read_brings :
      (len : ℕ) (r r' : R) (bytes : List B) (e : Option ReadError)
      → rd.read len r ≡ ((bytes, e), r')
      → 0 < len
      → e ≡ none
      → 0 < length bytes
  pub read_only_ends :
      (len : ℕ) (r r' : R) (bytes : List B) (x : ReadError)
      → rd.read len r ≡ ((bytes, some x), r')
      → x ≡ eof
  pub copy_n_only_ends :
      (n : ℕ) (r r' : R) (copied : ℕ) (x : ReadError)
      → rd.copy_n n r ≡ ((copied, some x), r')
      → x ≡ eof
