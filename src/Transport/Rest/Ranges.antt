-- ===== src/Transport/Rest/Ranges.antt =====
-- The bytes of a download with the header `Range`, against what `Content-Range` announces.
use dbbridge.Base.{
  ℕ, zero, suc, ◌+◌, ◌-◌, ◌≤◌, ◌<◌, ◌≡◌, ◌≢◌, refl, ap, ◌∙◌, false, Option, some, List, [], ◌∷◌,
  take, drop, length, ok, arith, eq_iff, Option-cases, Bool-cases, inl, inr, ◌⊎◌,
}
use dbbridge.Base.Int.{ℤ, pos, negsuc, pos_part, ltb_ℤ, ◌+ℤ◌, ◌-ℤ◌}
use dbbridge.Base.Int64.{wrap}
use dbbridge.Base.Assoc.{Assoc, lookup}
use dbbridge.Domain.{QueryRecord, ResultRef, succeeded}
use dbbridge.Authn.{Identity}
use dbbridge.State.MetaStore.{MetaStore}
use dbbridge.Sqlguard.{Text, codes}
use dbbridge.Service.{QueryService, Body, Backend}
use dbbridge.Service.Access.{MaySee}
use dbbridge.Service.Section.{Reader, ReaderLaws, IsSteady, eof}
use dbbridge.Service.Section.Delivery.{range}
use dbbridge.Service.Download.{serve, serve-download_result}
use dbbridge.Transport.Rest.ByteRange.{
  parse_byte_range, parse_int, unsigned, trim_prefix, split_dash, range_end,
}
use dbbridge.Transport.Rest.Handlers.{part, unsatisfied, bytes, Reply}
use dbbridge.Transport.Rest.Download.{
  DownloadRequest, range_limit, last_byte, range_reply, download_range, download_header,
  handle_download_result,
}

take_enough : {B : Type 0} (m : ℕ) (xs : List B) → length xs ≤ m → take m xs ≡ xs
take_enough zero [] h = refl
take_enough (suc m) [] h = refl
take_enough zero (x ∷ xs) h = absurd (omega (arith, h))
take_enough (suc m) (x ∷ xs) h = ap (◌∷◌ x) (take_enough m xs (omega (arith, h)))

length-take : {B : Type 0} (m : ℕ) (xs : List B) → m ≤ length xs → length (take m xs) ≡ m
length-take zero xs h = omega arith
length-take (suc m) [] h = absurd (omega (arith, h))
length-take (suc m) (x ∷ xs) h = omega (arith, length-take m xs (omega (arith, h)))

length-drop_rest : {B : Type 0} (a : ℕ) (xs : List B) → length (drop a xs) ≡ length xs - a
length-drop_rest zero xs = omega arith
length-drop_rest (suc a) [] = omega arith
length-drop_rest (suc a) (x ∷ xs) = omega (arith, length-drop_rest a xs)

-- The number of bytes from the start to the last byte.
abbrev pub span : ℕ → ℤ → ℕ → ℕ
span start end total = pos_part (last_byte end (pos total)) + 1 - start

-- The end is open, or not before the start, and fits 64 bits.
abbrev pub IsEnd : ℕ → ℤ → Type 0
IsEnd start end = (end ≡ negsuc 0) ⊎ ((start ≤ pos_part end) × (pos_part end < 9223372036854775808))

range-span :
    {B : Type 0} (start : ℕ) (end : ℤ) (xs : List B)
    → IsEnd start end
    → start < length xs
    → length xs < 9223372036854775808
    → range (pos start) (range_limit (pos start) end) xs
      ≡ take (span start end (length xs)) (drop start xs)
unfolding wrap ◌+ℤ◌ ◌-ℤ◌
range-span start end xs e a b = ground (
  arith,
  e,
  a,
  b,
  length-drop_rest start xs,
  take_enough (span start end (length xs)) (drop start xs),
  take_enough (pos_part (range_limit (pos start) end)) (drop start xs),
)

parse_int-bounded : (cs : Text) (n : ℤ) → parse_int cs ≡ some n → pos_part n < 9223372036854775808
unfolding parse_int ◌-ℤ◌
parse_int-bounded [] n h = ground (arith, h)
parse_int-bounded (c ∷ cs) n h = elim (Option-cases (unsigned cs)) [
  | inl u ↦ elim (Option-cases (unsigned (c ∷ cs))) [
    | inl v ↦ ground (arith, h, u, v)
    | inr (y, v) ↦ ground (arith, h, u, v)
  ]
  | inr (x, u) ↦ elim (Option-cases (unsigned (c ∷ cs))) [
    | inl v ↦ ground (arith, h, u, v)
    | inr (y, v) ↦ ground (arith, h, u, v)
  ]
]

range_end-IsEnd :
    (start : ℤ) (after : Text) (s e : ℤ)
    → ltb_ℤ start (pos 0) ≡ false
    → range_end start after ≡ some (s, e)
    → (start ≡ s) × ((s ≡ pos (pos_part s)) × IsEnd (pos_part s) e)
range_end-IsEnd start [] s e n h = ground (arith, h, n)
range_end-IsEnd start (c ∷ cs) s e n h = elim (Option-cases (parse_int (c ∷ cs))) [
  | inl p ↦ ground (arith, h, p)
  | inr (x, p) ↦ ground (arith, h, p, n, parse_int-bounded (c ∷ cs) x p)
]

-- What a header gives: a start that is not negative, and an end that is open or not before it.
pub parse_byte_range-IsEnd :
    (header : Text) (s e : ℤ)
    → parse_byte_range header ≡ some (s, e)
    → (s ≡ pos (pos_part s)) × IsEnd (pos_part s) e
unfolding parse_byte_range
parse_byte_range-IsEnd header s e h = elim (Option-cases (trim_prefix (codes "bytes=") header)) [
  | inl n ↦ ground (arith, h, n)
  | inr (spec, t) ↦ elim (Option-cases (split_dash spec)) [
    | inl n ↦ ground (arith, h, t, n)
    | inr ((before, after), d) ↦ elim (Option-cases (parse_int before)) [
      | inl n ↦ ground (arith, h, t, d, n)
      | inr (start, p) ↦ elim (Bool-cases (ltb_ℤ start (pos 0))) [
        | inl n ↦ ground (arith, h, t, d, p, n)
        | inr n ↦ (range_end-IsEnd start after s e n (ground (arith, h, t, d, p, n))).1
      ]
    ]
  ]
]

length-span :
    {B : Type 0} (start : ℕ) (end : ℤ) (xs : List B)
    → IsEnd start end
    → start < length xs
    → length (take (span start end (length xs)) (drop start xs)) ≡ span start end (length xs)
unfolding ◌-ℤ◌
length-span start end xs e a =
    length-take (span start end (length xs)) (drop start xs)
      (ground (arith, e, a, length-drop_rest start xs))

module _ {S B R : Type 0} (rd : Reader B R) (laws : ReaderLaws rd) (steady : IsSteady rd)
    (ms : MetaStore S) (sv : QueryService) (stores : Assoc (Backend R))
    (caller : Option Identity) where
  download_header-range :
      (q : DownloadRequest) (header : Text) (start end : ℤ) (s : S)
      → parse_byte_range header ≡ some (start, end)
      → download_header ms sv stores caller q header s
        ≡ download_range ms sv stores caller q.id start end s
  unfolding download_header parse_byte_range trim_prefix
  download_header-range q [] start end s h = ground (arith, h)
  download_header-range q (c ∷ cs) start end s h = ground (arith, h)

  -- The reply to a range of a result whose size was recorded as it is.
  abbrev pub IsPartial : ℕ → ℤ → ℕ → ℕ → List B → Reply R → Type 0
  IsPartial start end fuel len content reply =
      let total = length content in
      (total ≤ start
        → (reply.status ≡ 416) × (reply.content_range ≡ some (unsatisfied (pos total))))
      × (start < total
          → (body : Body R) × (reply.status ≡ 206)
            × (reply.content_range
                ≡ some (part (pos start) (last_byte end (pos total)) (pos total)))
            × (reply.payload ≡ bytes body)
            × (serve rd fuel len body
                ≡ (take (span start end total) (drop start content), some eof))
            × (length (take (span start end total) (drop start content)) ≡ span start end total))

  -- A range that starts within the object is served as 206 with exactly the bytes that `Content-Range`
  -- announces, whatever the length of the buffer, and one that starts past its end is refused as 416 with
  -- the object's size.
  pub handle_download_result-IsPartial :
      (q : DownloadRequest) (start : ℕ) (end : ℤ) (s : S) (rec : QueryRecord) (ref : ResultRef)
      (open_reader : Backend R) (r : R) (fuel len : ℕ)
      → q.id ≢ ""
      → parse_byte_range q.range_header ≡ some (pos start, end)
      → ms.get_query q.id s ≡ ok rec
      → MaySee sv caller rec
      → rec.state ≡ succeeded
      → rec.result ≡ some ref
      → ref.size_bytes ≡ pos (length (laws.rest r))
      → lookup ref.backend stores ≡ some open_reader
      → open_reader ref ≡ ok r
      → length (laws.rest r) < 9223372036854775808
      → 0 < len
      → length (laws.rest r) < fuel
      → IsPartial start end fuel len (laws.rest r) (handle_download_result ms sv stores caller q s)
  unfolding handle_download_result download_range range_reply
  handle_download_result-IsPartial q start end s rec ref open_reader r fuel len n h g m t f z l o b
        p u =
      let content = laws.rest r in
      let (body, d, served) =
        serve-download_result rd laws steady ms sv stores caller q.id s rec ref open_reader r
          (pos start) (range_limit (pos start) end) fuel len g m t f l o p u in
      let e = (parse_byte_range-IsEnd q.range_header (pos start) end h).1 in
      let via = download_header-range q q.range_header (pos start) end s h in
      (
        λ a. ground (arith, n, via, d, z, a, eq_iff q.id ""),
        λ a. (
          body,
          ground (arith, n, via, d, z, a, eq_iff q.id ""),
          ground (arith, n, via, d, z, a, eq_iff q.id ""),
          ground (arith, n, via, d, z, a, eq_iff q.id ""),
          served ∙ ap (λ xs. (xs, some eof)) (range-span start end content e a b),
          length-span start end content e a,
        ),
      )
