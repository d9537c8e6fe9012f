-- ===== src/Transport/Grpc/Chunks.antt =====
-- The chunks of a download over gRPC.
use dbbridge.Base.{
  append-nil, append_assoc, ℕ, zero, suc, ◌<◌, String, ◌≡◌, refl, ap, sym, Option, none, some, List,
  [], ◌∷◌, ◌++◌, length, length-append, ok, arith, Option-cases, inl, inr,
}
use dbbridge.Base.Int.{ℤ}
use dbbridge.Base.Assoc.{Assoc, lookup}
use dbbridge.Domain.{QueryRecord, ResultRef, succeeded}
use dbbridge.Authn.{Identity}
use dbbridge.State.MetaStore.{MetaStore}
use dbbridge.Service.{QueryService, Backend, Body, whole, section}
use dbbridge.Service.Access.{MaySee}
use dbbridge.Service.Download.{body_for, download_result-body_for}
use dbbridge.Service.Section as Section
use dbbridge.Service.Section.{Reader, ReaderLaws, IsSteady, ReadError, eof, SectionReadCloser}
use dbbridge.Service.Section.Delivery.{range, left, read-left, read-brings, read-only_ends}
use dbbridge.Transport.Grpc.{ConnectError, read_body, send_chunk, pump, chunk_size, download_result}

-- A stream that takes every chunk; `sent` is what it has taken.
pub record StreamLaws {B W : Type 0} (send : List B → W → Option ConnectError × W) : Type 0 where
  pub sent : W → List B
  pub send_takes :
      (chunk : List B) (w : W)
      → ((send chunk w).0 ≡ none) × (sent (send chunk w).1 ≡ sent w ++ chunk)

module _ {B R W : Type 0} (rd : Reader B R) (laws : ReaderLaws rd) (steady : IsSteady rd)
    (send : List B → W → Option ConnectError × W) (stream : StreamLaws send) where
  -- What a body has still to deliver, and how much its reader has.
  abbrev pub remains : Body R → List B
  remains (whole r) = laws.rest r
  remains (section src) = left rd laws src

  abbrev pub size : Body R → ℕ
  size (whole r) = length (laws.rest r)
  size (section src) = length (laws.rest src.r)

  read_body-remains :
      (len : ℕ) (body : Body R)
      → let ((bytes, e), body') = read_body rd len body in
        (remains body ≡ bytes ++ remains body') × (e ≡ some eof → remains body' ≡ [])
  unfolding read_body
  read_body-remains len (whole r) =
      let x = rd.read len r in
      (
        (laws.read_rest len r x.1 x.0.0 x.0.1 refl).0,
        λ e. laws.read_eof len r x.1 x.0.0 (ap (λ y. ((x.0.0, y), x.1)) e),
      )
  read_body-remains len (section src) =
      let x = Section.read rd len src in read-left rd laws len src x.1 x.0.0 x.0.1 refl

  read_body-brings :
      (len : ℕ) (body : Body R)
      → 0 < len
      → let ((bytes, e), body') = read_body rd len body in e ≡ none → size body' < size body
  unfolding read_body
  read_body-brings len (whole r) p n =
      let x = rd.read len r in
      ground (
        arith,
        laws.read_rest len r x.1 x.0.0 x.0.1 refl,
        length-append x.0.0 (laws.rest x.1),
        steady.read_brings len r x.1 x.0.0 x.0.1 refl p n,
      )
  read_body-brings len (section src) p n =
      let x = Section.read rd len src in
      read-brings rd laws steady len src x.1 x.0.0 p (ap (λ y. ((x.0.0, y), x.1)) n)

  read_body-only_ends :
      (len : ℕ) (body : Body R) (y : ReadError)
      → let ((bytes, e), body') = read_body rd len body in e ≡ some y → y ≡ eof
  unfolding read_body
  read_body-only_ends len (whole r) y n =
      let x = rd.read len r in
      steady.read_only_ends len r x.1 x.0.0 y (ap (λ z. ((x.0.0, z), x.1)) n)
  read_body-only_ends len (section src) y n =
      let x = Section.read rd len src in
      read-only_ends rd laws steady len src x.1 x.0.0 y (ap (λ z. ((x.0.0, z), x.1)) n)

  send_chunk-takes :
      (chunk : List B) (w : W)
      → ((send_chunk rd send chunk w).0 ≡ none)
        × (stream.sent (send_chunk rd send chunk w).1 ≡ stream.sent w ++ chunk)
  send_chunk-takes [] w = (refl, sym (append-nil (stream.sent w)))
  send_chunk-takes (b ∷ bs) w = stream.send_takes (b ∷ bs) w

  -- The chunks that a stream takes are together what the body has to deliver, and then the call ends
  -- without an error, after at most one read more than the reader has values.
  pub pump-remains :
      (fuel : ℕ) (body : Body R) (w : W)
      → size body < fuel
      → let (e, w') = pump rd send fuel body w in
        (e ≡ none) × (stream.sent w' ≡ stream.sent w ++ remains body)
  unfolding pump
  pump-remains zero body w h = absurd (omega (arith, h))
  pump-remains (suc fuel) body w h =
      let x = read_body rd chunk_size body in
      let y = send_chunk rd send x.0.0 w in
      let whole_body = read_body-remains chunk_size body in
      elim (Option-cases x.0.1) [
        | inl n ↦
            let shorter : size x.1 < fuel =
              omega (arith, h, read_body-brings chunk_size body (omega arith) n) in
            ground (
              arith,
              n,
              whole_body,
              send_chunk-takes x.0.0 w,
              pump-remains fuel x.1 y.1 shorter,
              append_assoc (stream.sent w) x.0.0 (remains x.1),
            )
        | inr (z, n) ↦ ground (
          arith,
          n,
          whole_body,
          send_chunk-takes x.0.0 w,
          read_body-only_ends chunk_size body z n,
          append-nil x.0.0,
        )
      ]

  remains-range :
      (offset limit : ℤ) (r : R)
      → remains (body_for offset limit r) ≡ range offset limit (laws.rest r)
  remains-range offset limit r = ground arith

  size-body_for : (offset limit : ℤ) (r : R) → size (body_for offset limit r) ≡ length (laws.rest r)
  size-body_for offset limit r = ground arith

  -- A caller that may see a finished query gets over gRPC, in chunks, exactly the asked range of the
  -- stored object, and the call ends without an error, if the stream takes every chunk.
  pub download_result-range :
      {S : Type 0} (ms : MetaStore S) (sv : QueryService) (stores : Assoc (Backend R))
      (caller : Option Identity) (id : String) (s : S) (rec : QueryRecord) (ref : ResultRef)
      (open_reader : Backend R) (r : R) (offset limit : ℤ) (fuel : ℕ) (w : W)
      → ms.get_query id s ≡ ok rec
      → MaySee sv caller rec
      → rec.state ≡ succeeded
      → rec.result ≡ some ref
      → lookup ref.backend stores ≡ some open_reader
      → open_reader ref ≡ ok r
      → length (laws.rest r) < fuel
      → let (e, w') = download_result rd send ms sv stores fuel caller id offset limit s w in
        (e ≡ none) × (stream.sent w' ≡ stream.sent w ++ range offset limit (laws.rest r))
  unfolding download_result
  download_result-range ms sv stores caller id s rec ref open_reader r offset limit fuel w g m t f l
        o q =
      let body = body_for offset limit r in
      let opened =
        download_result-body_for ms sv stores caller id s rec ref open_reader r offset limit g m t f
          l o in
      ground (
        arith,
        opened,
        remains-range offset limit r,
        pump-remains fuel body w (omega (arith, q, size-body_for offset limit r)),
      )
