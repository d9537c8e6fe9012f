-- ===== src/Service/Section/Delivery.antt =====
-- What the reads of a section deliver.
use dbbridge.Base.{
  append-nil, ℕ, zero, suc, ◌-◌, ◌≤◌, ◌<◌, ◌≡◌, refl, true, false, Option, none, some, List, [],
  ◌∷◌, ◌++◌, take, drop, length, length-append, arith, if◌then◌else◌, Bool-cases, Option-cases, inl,
  inr,
}
use dbbridge.Base.Int.{ℤ, pos, pos_part, ltb_ℤ, ◌-ℤ◌}
use dbbridge.Service.Section.{
  ReadError, eof, Reader, ReaderLaws, IsSteady, SectionReadCloser, new_section_read_closer, read,
  read_part, to_read,
}

-- A range of a sequence; no limit is none or a negative one.
abbrev pub range {ℓ} : {B : Type ℓ} → ℤ → ℤ → List B → List B
range offset limit xs =
    let from = drop (pos_part offset) xs in
    if ltb_ℤ (pos 0) limit then take (pos_part limit) from else from

take-append :
    {B : Type 0} (n : ℕ) (xs ys : List B)
    → length xs ≤ n
    → take n (xs ++ ys) ≡ xs ++ take (n - length xs) ys
take-append n [] ys h = ground arith
take-append zero (x ∷ xs) ys h = absurd (omega (arith, h))
take-append (suc n) (x ∷ xs) ys h = ground (arith, take-append n xs ys (omega (arith, h)))

take_all : (B : Type 0) (n : ℕ) → take {A = B} n [] ≡ []
take_all B zero = refl
take_all B (suc n) = refl

drop_all : (B : Type 0) (n : ℕ) → drop {A = B} n [] ≡ []
drop_all B zero = refl
drop_all B (suc n) = refl

drop_rest : {B : Type 0} (c n : ℕ) (xs : List B) → c ≤ n → drop (n - c) (drop c xs) ≡ drop n xs
drop_rest zero n xs h = ground arith
drop_rest (suc c) zero xs h = absurd (omega (arith, h))
drop_rest {B} (suc c) (suc n) [] h = drop_all B (suc n - suc c)
drop_rest (suc c) (suc n) (x ∷ xs) h = ground (arith, drop_rest c n xs (omega (arith, h)))

length-drop : {B : Type 0} (n : ℕ) (xs : List B) → length (drop n xs) ≤ length xs
length-drop zero xs = omega arith
length-drop (suc n) [] = omega arith
length-drop (suc n) (x ∷ xs) = omega (arith, length-drop n xs)

-- The loop of a client of the section, up to the end or another error.
unfoldable pub read_all :
    {B R : Type 0} → Reader B R → ℕ → ℕ → SectionReadCloser R → List B × Option ReadError
read_all rd zero len src = ([], none)
read_all rd (suc fuel) len src =
    let ((bytes, e), src') = read rd len src in
    let (more, end) = read_all rd fuel len src' in
    elim e [ some x ↦ (bytes, some x) | none ↦ (bytes ++ more, end) ]

module _ {B R : Type 0} (rd : Reader B R) (laws : ReaderLaws rd) where
  -- What a section has still to deliver.
  abbrev pub left : SectionReadCloser R → List B
  left src =
      let from = drop (pos_part src.offset) (laws.rest src.r) in
      if ltb_ℤ (pos 0) src.limit
      then take (pos_part src.limit - pos_part src.consumed) from
      else from

  read_part-left :
      (len : ℕ) (src src' : SectionReadCloser R) (bytes : List B) (e : Option ReadError)
      → ltb_ℤ (pos 0) src.offset ≡ false
      → read_part rd len src ≡ ((bytes, e), src')
      → (left src ≡ bytes ++ left src') × (e ≡ some eof → left src' ≡ [])
  unfolding read_part
  read_part-left len src src' bytes e o h =
      let x = rd.read (to_read len src) src.r in
      let (whole, short) = laws.read_rest (to_read len src) src.r x.1 x.0.0 x.0.1 refl in
      ground (
        arith,
        h,
        o,
        whole,
        short,
        laws.read_eof (to_read len src) src.r x.1 x.0.0,
        drop_all B (pos_part src'.offset),
        take_all B (pos_part src'.limit - pos_part src'.consumed),
        take-append (pos_part src.limit - pos_part src.consumed) x.0.0 (laws.rest x.1),
      )

  skip-left :
      (src : SectionReadCloser R)
      → ltb_ℤ (pos 0) src.offset ≡ true
      → let ((discarded, e), r) = rd.copy_n (pos_part src.offset) src.r in
        let src' : SectionReadCloser R = record src {
          r = r;
          offset = src.offset -ℤ pos discarded;
        } in
        (left src ≡ left src')
        × ((e ≡ none → ltb_ℤ (pos 0) src'.offset ≡ false) × (e ≡ some eof → left src' ≡ []))
  unfolding ◌-ℤ◌
  skip-left src o =
      let x = rd.copy_n (pos_part src.offset) src.r in
      let (skipped, most) = laws.copy_n_rest (pos_part src.offset) src.r x.1 x.0.0 x.0.1 refl in
      ground (
        arith,
        o,
        skipped,
        most,
        laws.copy_n_all (pos_part src.offset) src.r x.1 x.0.0,
        laws.copy_n_eof (pos_part src.offset) src.r x.1 x.0.0,
        drop_rest x.0.0 (pos_part src.offset) (laws.rest src.r) most,
        drop_all B (pos_part (src.offset -ℤ pos x.0.0)),
        take_all B (pos_part src.limit - pos_part src.consumed),
      )

  -- Each read delivers the next values of the section, and the end comes only after all of them.
  pub read-left :
      (len : ℕ) (src src' : SectionReadCloser R) (bytes : List B) (e : Option ReadError)
      → read rd len src ≡ ((bytes, e), src')
      → (left src ≡ bytes ++ left src') × (e ≡ some eof → left src' ≡ [])
  unfolding read
  read-left len src src' bytes e h = elim (Bool-cases (ltb_ℤ (pos 0) src.offset)) [
    | inr o ↦ read_part-left len src src' bytes e o (ground (arith, h, o))
    | inl o ↦
        let x = rd.copy_n (pos_part src.offset) src.r in
        let src1 : SectionReadCloser R = record src { r = x.1; offset = src.offset -ℤ pos x.0.0 } in
        elim (Option-cases x.0.1) [
          | inl n ↦ ground (
            arith,
            skip-left src o,
            read_part-left len src1 src' bytes e ((skip-left src o).1.0 n)
                (ground (arith, h, o, n)),
          )
          | inr (y, n) ↦ ground (arith, h, o, n, skip-left src o)
        ]
  ]

  module _ (steady : IsSteady rd) where
    read_part-brings :
        (len : ℕ) (src src' : SectionReadCloser R) (bytes : List B)
        → 0 < len
        → read_part rd len src ≡ ((bytes, none), src')
        → length (laws.rest src'.r) < length (laws.rest src.r)
    unfolding read_part
    read_part-brings len src src' bytes p h =
        let x = rd.read (to_read len src) src.r in
        let (whole, short) = laws.read_rest (to_read len src) src.r x.1 x.0.0 x.0.1 refl in
        ground (
          arith,
          h,
          whole,
          steady.read_brings (to_read len src) src.r x.1 x.0.0 x.0.1 refl,
          length-append x.0.0 (laws.rest x.1),
        )

    read_part-only_ends :
        (len : ℕ) (src src' : SectionReadCloser R) (bytes : List B) (y : ReadError)
        → read_part rd len src ≡ ((bytes, some y), src')
        → y ≡ eof
    unfolding read_part
    read_part-only_ends len src src' bytes y h =
        let x = rd.read (to_read len src) src.r in
        ground (arith, h, steady.read_only_ends (to_read len src) src.r x.1 x.0.0 y)

    pub read-brings :
        (len : ℕ) (src src' : SectionReadCloser R) (bytes : List B)
        → 0 < len
        → read rd len src ≡ ((bytes, none), src')
        → length (laws.rest src'.r) < length (laws.rest src.r)
    unfolding read
    read-brings len src src' bytes p h = elim (Bool-cases (ltb_ℤ (pos 0) src.offset)) [
      | inr o ↦ read_part-brings len src src' bytes p (ground (arith, h, o))
      | inl o ↦
          let x = rd.copy_n (pos_part src.offset) src.r in
          let src1 : SectionReadCloser R = record src {
            r = x.1;
            offset = src.offset -ℤ pos x.0.0;
          } in
          elim (Option-cases x.0.1) [
            | inl n ↦ ground (
              arith,
              laws.copy_n_rest (pos_part src.offset) src.r x.1 x.0.0 x.0.1 refl,
              length-drop x.0.0 (laws.rest src.r),
              read_part-brings len src1 src' bytes p (ground (arith, h, o, n)),
            )
            | inr (y, n) ↦ ground (arith, h, o, n)
          ]
    ]

    pub read-only_ends :
        (len : ℕ) (src src' : SectionReadCloser R) (bytes : List B) (y : ReadError)
        → read rd len src ≡ ((bytes, some y), src')
        → y ≡ eof
    unfolding read
    read-only_ends len src src' bytes y h = elim (Bool-cases (ltb_ℤ (pos 0) src.offset)) [
      | inr o ↦ read_part-only_ends len src src' bytes y (ground (arith, h, o))
      | inl o ↦
          let x = rd.copy_n (pos_part src.offset) src.r in
          let src1 : SectionReadCloser R = record src {
            r = x.1;
            offset = src.offset -ℤ pos x.0.0;
          } in
          elim (Option-cases x.0.1) [
            | inl n ↦ read_part-only_ends len src1 src' bytes y (ground (arith, h, o, n))
            | inr (z, n) ↦
                ground
                  (arith, h, o, n, steady.copy_n_only_ends (pos_part src.offset) src.r x.1 x.0.0 y)
          ]
    ]

    read_all-left :
        (fuel len : ℕ) (src : SectionReadCloser R)
        → 0 < len
        → length (laws.rest src.r) < fuel
        → read_all rd fuel len src ≡ (left src, some eof)
    unfolding read_all
    read_all-left zero len src p q = absurd (omega (arith, q))
    read_all-left (suc fuel) len src p q =
        let x = read rd len src in
        elim (Option-cases x.0.1) [
          | inl n ↦ ground (
            arith,
            n,
            read-left len src x.1 x.0.0 x.0.1 refl,
            read_all-left fuel len x.1 p
                (omega (arith, q, read-brings len src x.1 x.0.0 p (ground (arith, n)))),
          )
          | inr (y, n) ↦ ground (
            arith,
            n,
            read-only_ends len src x.1 x.0.0 y (ground (arith, n)),
            read-left len src x.1 x.0.0 x.0.1 refl,
            append-nil x.0.0,
          )
        ]

    -- Reading a section to its end, with any buffer, gives exactly the values of the range, and the end is
    -- reached after at most one read more than the reader has values.
    pub read_all-range :
        (fuel len : ℕ) (r : R) (offset limit : ℤ)
        → 0 < len
        → length (laws.rest r) < fuel
        → read_all rd fuel len (new_section_read_closer r offset limit)
          ≡ (range offset limit (laws.rest r), some eof)
    read_all-range fuel len r offset limit p q =
        ground (arith, read_all-left fuel len (new_section_read_closer r offset limit) p q)
