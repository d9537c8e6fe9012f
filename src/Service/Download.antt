-- ===== src/Service/Download.antt =====
-- What a download serves.
use dbbridge.Base.{
  append-nil, ℕ, zero, suc, ◌<◌, String, ◌≡◌, refl, ◌||◌, Option, none, some, List, [], ◌++◌,
  length, length-append, ok, arith, Result-cases, Option-cases, inl, inr, if◌then◌else◌,
}
use dbbridge.Base.Int.{ℤ, pos, ltb_ℤ}
use dbbridge.Base.Assoc.{Assoc, lookup}
use dbbridge.Domain.{QueryRecord, ResultRef, succeeded}
use dbbridge.Authn.{Identity}
use dbbridge.State.MetaStore.{MetaStore}
use dbbridge.Service.{
  QueryService, Body, whole, section, Backend, authorized, open_result, download_result,
}
use dbbridge.Service.Access.{MaySee, authorized_iff}
use dbbridge.Service.Section.{Reader, ReaderLaws, IsSteady, ReadError, eof, new_section_read_closer}
use dbbridge.Service.Section.Delivery.{range, read_all, read_all-range}

-- `io.Copy` from the stored object itself.
unfoldable pub copy_all : {B R : Type 0} → Reader B R → ℕ → ℕ → R → List B × Option ReadError
copy_all rd zero len r = ([], none)
copy_all rd (suc fuel) len r =
    let ((bytes, e), r') = rd.read len r in
    let (more, end) = copy_all rd fuel len r' in
    elim e [ some x ↦ (bytes, some x) | none ↦ (bytes ++ more, end) ]

-- `io.Copy` from the body of a download.
abbrev pub serve : {B R : Type 0} → Reader B R → ℕ → ℕ → Body R → List B × Option ReadError
serve rd fuel len (whole r) = copy_all rd fuel len r
serve rd fuel len (section src) = read_all rd fuel len src

-- The body for a range of an opened object.
abbrev pub body_for : {R : Type 0} → ℤ → ℤ → R → Body R
body_for offset limit r =
    if ltb_ℤ (pos 0) offset || ltb_ℤ (pos 0) limit
    then section (new_section_read_closer r offset limit)
    else whole r

pub download_result-body_for :
    {S R : Type 0} (ms : MetaStore S) (sv : QueryService) (stores : Assoc (Backend R))
    (caller : Option Identity) (id : String) (s : S) (rec : QueryRecord) (ref : ResultRef)
    (open_reader : Backend R) (r : R) (offset limit : ℤ)
    → ms.get_query id s ≡ ok rec
    → MaySee sv caller rec
    → rec.state ≡ succeeded
    → rec.result ≡ some ref
    → lookup ref.backend stores ≡ some open_reader
    → open_reader ref ≡ ok r
    → download_result ms sv stores caller id offset limit s ≡ ok (body_for offset limit r, ref)
unfolding download_result open_result
download_result-body_for ms sv stores caller id s rec ref open_reader r offset limit g m t f l o =
    ground (arith, (authorized_iff ms sv caller id s rec).1 (g, m), t, f, l, o)

module _ {B R : Type 0} (rd : Reader B R) (laws : ReaderLaws rd) (steady : IsSteady rd) where
  copy_all-rest :
      (fuel len : ℕ) (r : R)
      → 0 < len
      → length (laws.rest r) < fuel
      → copy_all rd fuel len r ≡ (laws.rest r, some eof)
  unfolding copy_all
  copy_all-rest zero len r p q = absurd (omega (arith, q))
  copy_all-rest (suc fuel) len r p q =
      let x = rd.read len r in
      let (every, short) = laws.read_rest len r x.1 x.0.0 x.0.1 refl in
      elim (Option-cases x.0.1) [
        | inl n ↦
            let shorter : length (laws.rest x.1) < fuel = ground (
              arith,
              q,
              every,
              length-append x.0.0 (laws.rest x.1),
              steady.read_brings len r x.1 x.0.0 x.0.1 refl p n,
            ) in
            ground (arith, n, every, copy_all-rest fuel len x.1 p shorter)
        | inr (y, n) ↦ ground (
          arith,
          n,
          every,
          steady.read_only_ends len r x.1 x.0.0 y,
          laws.read_eof len r x.1 x.0.0,
          append-nil x.0.0,
        )
      ]

  serve-range :
      (fuel len : ℕ) (offset limit : ℤ) (r : R)
      → 0 < len
      → length (laws.rest r) < fuel
      → serve rd fuel len (
          if ltb_ℤ (pos 0) offset || ltb_ℤ (pos 0) limit
          then section (new_section_read_closer r offset limit)
          else whole r)
        ≡ (range offset limit (laws.rest r), some eof)
  serve-range fuel len offset limit r p q = ground (
    arith,
    read_all-range rd laws steady fuel len r offset limit p q,
    copy_all-rest fuel len r p q,
  )

  module _ {S : Type 0} (ms : MetaStore S) (sv : QueryService) (stores : Assoc (Backend R))
      (caller : Option Identity) (id : String) (s : S) where
    -- A caller that may see a finished query gets, reading the body to its end with any buffer, exactly
    -- the asked range of the stored object, and then the end.
    pub serve-download_result :
        (rec : QueryRecord) (ref : ResultRef) (open_reader : Backend R) (r : R) (offset limit : ℤ)
        (fuel len : ℕ)
        → ms.get_query id s ≡ ok rec
        → MaySee sv caller rec
        → rec.state ≡ succeeded
        → rec.result ≡ some ref
        → lookup ref.backend stores ≡ some open_reader
        → open_reader ref ≡ ok r
        → 0 < len
        → length (laws.rest r) < fuel
        → (body : Body R) × (download_result ms sv stores caller id offset limit s ≡ ok (body, ref))
          × (serve rd fuel len body ≡ (range offset limit (laws.rest r), some eof))
    serve-download_result rec ref open_reader r offset limit fuel len g m t f l o p q = (
      body_for offset limit r,
      download_result-body_for ms sv stores caller id s rec ref open_reader r offset limit g m t f l
          o,
      serve-range fuel len offset limit r p q,
    )

    -- A body is served only of a query that the caller may see, that succeeded and whose record has a
    -- result, and it is opened at that result's reference.
    pub download_result-MaySee :
        (body : Body R) (ref : ResultRef) (offset limit : ℤ)
        → download_result ms sv stores caller id offset limit s ≡ ok (body, ref)
        → (rec : QueryRecord) × (ms.get_query id s ≡ ok rec)
          × MaySee sv caller rec
          × (rec.state ≡ succeeded)
          × (rec.result ≡ some ref)
    unfolding download_result open_result
    download_result-MaySee body ref offset limit h =
        elim (Result-cases (authorized ms sv caller id s)) [
          | inr (e, a) ↦ ground (arith, h, a)
          | inl (rec, a) ↦
              let (g, m) = (authorized_iff ms sv caller id s rec).0 a in
              (rec, g, m, ground (arith, h, a), ground (arith, h, a))
        ]
