-- ===== src/AwsChunked/Framing.antt =====
-- The framing that src/s3/chunked.ts takes off a body.
use lopata.Common.{
  ℕ, suc, ◌≡◌, refl, ◌∙◌, subst, some, List, [], ◌∷◌, ◌++◌, append-nil, length, All, map, Text,
}
use lopata.AwsChunked.{
  Bytes, header, data_left, done, Decoder, continue, close, positive, size_of_line, after_header,
  round, closed, read_all,
}
use lopata.AwsChunked.Decoding.{
  join, decoder, IsLine, Leads, more, Leads-trans, header-Leads, crlf-Leads, read_all-Leads,
}
use lopata.AwsChunked.Payloads.{data-Leads}

pub record Chunk : Type 0 where
  pub line : Bytes
  pub payload : Bytes

-- The body of a request: each chunk behind its line, and a last line with a trailer that is not read.
abbrev pub encode : List Chunk → Bytes → Bytes → Bytes
encode [] last trailer = last ++ (13 ∷ 10 ∷ trailer)
encode (c ∷ cs) last trailer = c.line ++ (13 ∷ 10 ∷ c.payload ++ (13 ∷ 10 ∷ encode cs last trailer))

module _ (decode : Bytes → Text) where
  -- A line without a carriage return that says the size of its data, of which there are some.
  abbrev pub IsFramed : Chunk → Type 0
  IsFramed c =
      IsLine c.line
      × (n : ℕ) × (length c.payload ≡ suc n)
      × (size_of_line (decode c.line) ≡ positive (suc n))

  one-Leads :
      (c : Chunk) (buffer rest : Bytes) (reader : List Bytes)
      → IsFramed c
      → buffer ++ join reader ≡ c.line ++ (13 ∷ 10 ∷ c.payload ++ (13 ∷ 10 ∷ rest))
      → (left : Bytes) × (reader' : List Bytes) × (left ++ join reader' ≡ rest)
        × Leads decode (decoder header buffer reader) c.payload (decoder header left reader')
  unfolding round after_header
  one-Leads c buffer rest reader (l, n, size, says) e =
      let (whole, left, r1, e1, l1, at) =
        header-Leads decode c.line buffer (c.payload ++ (13 ∷ 10 ∷ rest)) reader l e in
      let found : round decode (decoder header whole r1)
          ≡ continue (decoder (data_left (suc n)) left r1) =
        at ∙ rw says refl in
      let (left2, r2, e2, l2) = data-Leads decode c.payload left (13 ∷ 10 ∷ rest) r1 n size e1 in
      let (left3, r3, e3, l3) = crlf-Leads decode left2 rest r2 e2 in
      (
        left3,
        r3,
        e3,
        Leads-trans decode l1 (
            more (decoder header whole r1) (decoder (data_left (suc n)) left r1)
              (decoder header left3 r3) c.payload found
              (subst
                (λ o.
                  Leads decode (decoder (data_left (suc n)) left r1) o (decoder header left3 r3))
                (append-nil c.payload) (Leads-trans decode l2 l3))),
      )

  body-Leads :
      (chunks : List Chunk) (last trailer buffer : Bytes) (reader : List Bytes)
      → All IsFramed chunks
      → IsLine last
      → size_of_line (decode last) ≡ positive 0
      → buffer ++ join reader ≡ encode chunks last trailer
      → (d end : Decoder) × Leads decode
          (decoder header buffer reader)
          (join (map (λ c. c.payload) chunks))
          d
        × (round decode d ≡ close end)
  unfolding round after_header
  body-Leads [] last trailer buffer reader framed l says e =
      let (whole, left, r1, e1, l1, at) = header-Leads decode last buffer trailer reader l e in
      (decoder header whole r1, decoder done left r1, l1, at ∙ rw says refl)
  body-Leads (c ∷ chunks) last trailer buffer reader (f, framed) l says e =
      let (left, r1, e1, l1) = one-Leads c buffer (encode chunks last trailer) reader f e in
      let (d, end, l2, r2) = body-Leads chunks last trailer left r1 framed l says e1 in
      (d, end, Leads-trans decode l1 l2, r2)

  -- However a framed body is cut into chunks, empty ones included, a client that reads the decoded stream gets
  -- exactly the data of all its chunks and the end of the stream, in finitely many rounds; the framing has
  -- lines without a carriage return that say the size of their data, and its last line says 0.
  pub read_all-encode :
      (chunks : List Chunk) (last trailer : Bytes) (reader : List Bytes)
      → All IsFramed chunks
      → IsLine last
      → size_of_line (decode last) ≡ positive 0
      → join reader ≡ encode chunks last trailer
      → (fuel : ℕ) × (read_all decode fuel (decoder header [] reader)
          ≡ some (closed (join (map (λ c. c.payload) chunks))))
  read_all-encode chunks last trailer reader framed l says e =
      let (d, end, leads, r) = body-Leads chunks last trailer [] reader framed l says e in
      read_all-Leads decode end leads r
