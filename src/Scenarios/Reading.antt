-- ===== src/Scenarios/Reading.antt =====
-- A reader of a list of numbers, to try downloads on.
use dbbridge.Base.{
  ℕ, zero, suc, ◌≤◌, ◌<◌, ◌≡◌, refl, ap, Option, none, some, List, [], ◌∷◌, ◌++◌, take, drop,
  length, arith,
}
use dbbridge.Service.Section.{ReadError, eof, Reader, ReaderLaws, IsSteady}

abbrev read_list : ℕ → List ℕ → (List ℕ × Option ReadError) × List ℕ
read_list len [] = (([], some eof), [])
read_list len (x ∷ xs) = ((take len (x ∷ xs), none), drop len (x ∷ xs))

abbrev skip_list : ℕ → List ℕ → (ℕ × Option ReadError) × List ℕ
skip_list zero xs = ((0, none), xs)
skip_list (suc n) [] = ((0, some eof), [])
skip_list (suc n) (x ∷ xs) = let ((copied, e), rest) = skip_list n xs in ((suc copied, e), rest)

abbrev pub reader : Reader ℕ (List ℕ)
reader = record { read = read_list; copy_n = skip_list }

take-drop : (n : ℕ) (xs : List ℕ) → xs ≡ take n xs ++ drop n xs
take-drop zero xs = refl
take-drop (suc n) [] = refl
take-drop (suc n) (x ∷ xs) = ap (◌∷◌ x) (take-drop n xs)

length-take_most : (n : ℕ) (xs : List ℕ) → length (take n xs) ≤ n
length-take_most zero xs = omega arith
length-take_most (suc n) [] = omega arith
length-take_most (suc n) (x ∷ xs) = omega (arith, length-take_most n xs)

read_list-rest :
    (len : ℕ) (r r' bytes : List ℕ) (e : Option ReadError)
    → read_list len r ≡ ((bytes, e), r')
    → (r ≡ bytes ++ r') × (length bytes ≤ len)
read_list-rest len [] r' bytes e h = ground (arith, h)
read_list-rest len (x ∷ xs) r' bytes e h =
    ground (arith, h, take-drop len (x ∷ xs), length-take_most len (x ∷ xs))

read_list-eof :
    (len : ℕ) (r r' bytes : List ℕ) → read_list len r ≡ ((bytes, some eof), r') → r' ≡ []
read_list-eof len [] r' bytes h = ground (arith, h)
read_list-eof len (x ∷ xs) r' bytes h = ground (arith, h)

skip_list-rest :
    (n : ℕ) (r : List ℕ)
    → ((skip_list n r).1 ≡ drop (skip_list n r).0.0 r) × ((skip_list n r).0.0 ≤ n)
skip_list-rest zero r = (refl, omega arith)
skip_list-rest (suc n) [] = (refl, omega arith)
skip_list-rest (suc n) (x ∷ xs) = ground (arith, skip_list-rest n xs)

skip_list-all : (n : ℕ) (r : List ℕ) → (skip_list n r).0.1 ≡ none → (skip_list n r).0.0 ≡ n
skip_list-all zero r h = refl
skip_list-all (suc n) [] h = ground (arith, h)
skip_list-all (suc n) (x ∷ xs) h = ground (arith, skip_list-all n xs h)

skip_list-eof : (n : ℕ) (r : List ℕ) → (skip_list n r).0.1 ≡ some eof → (skip_list n r).1 ≡ []
skip_list-eof zero r h = ground (arith, h)
skip_list-eof (suc n) [] h = refl
skip_list-eof (suc n) (x ∷ xs) h = skip_list-eof n xs h

skip_list-only_ends : (n : ℕ) (r : List ℕ) (x : ReadError) → (skip_list n r).0.1 ≡ some x → x ≡ eof
skip_list-only_ends zero r x h = ground (arith, h)
skip_list-only_ends (suc n) [] x h = ground (arith, h)
skip_list-only_ends (suc n) (y ∷ xs) x h = skip_list-only_ends n xs x h

pub reader_laws : ReaderLaws reader
reader_laws = record {
  rest = λ r. r;
  read_rest = read_list-rest;
  read_eof = read_list-eof;
  copy_n_rest = λ n r r' c e h. ground (arith, h, skip_list-rest n r);
  copy_n_all = λ n r r' c h. ground (arith, h, skip_list-all n r);
  copy_n_eof = λ n r r' c h. ground (arith, h, skip_list-eof n r);
}

pub reader_laws-rest : (r : List ℕ) → reader_laws.rest r ≡ r
unfolding reader_laws
reader_laws-rest r = refl

read_list-brings :
    (len : ℕ) (r r' bytes : List ℕ) (e : Option ReadError)
    → read_list len r ≡ ((bytes, e), r')
    → 0 < len
    → e ≡ none
    → 0 < length bytes
read_list-brings len [] r' bytes e h p n = ground (arith, h, n)
read_list-brings zero (x ∷ xs) r' bytes e h p n = absurd (omega (arith, p))
read_list-brings (suc len) (x ∷ xs) r' bytes e h p n = ground (arith, h)

read_list-only_ends :
    (len : ℕ) (r r' bytes : List ℕ) (x : ReadError)
    → read_list len r ≡ ((bytes, some x), r')
    → x ≡ eof
read_list-only_ends len [] r' bytes x h = ground (arith, h)
read_list-only_ends len (y ∷ ys) r' bytes x h = ground (arith, h)

pub steady : IsSteady reader
steady = record {
  read_brings = read_list-brings;
  read_only_ends = read_list-only_ends;
  copy_n_only_ends = λ n r r' c x h. skip_list-only_ends n r x (ap (λ y. y.0.1) h);
}
