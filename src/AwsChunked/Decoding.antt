-- ===== src/AwsChunked/Decoding.antt =====
-- The data of a framed body come out of src/s3/chunked.ts, however the body is cut into chunks.
use lopata.Common.{
  ℕ, suc, ◌+◌, ◌≡◌, refl, ◌∙◌, sym, ap, subst, true, false, ◌&&◌, some, List, [], ◌∷◌, ◌++◌,
  append_assoc, append-nil, ltb, ◌==◌, length, take, drop, take-append, All, arith, Option-cases,
  inl, inr, Text,
}
use lopata.AwsChunked.{
  Bytes, State, header, crlf_after_data, Decoder, continue, enqueue, close, index_of_crlf,
  size_of_line, after_header, round_at, round, closed, read_all,
}

abbrev pub join : List Bytes → Bytes
join [] = []
join (c ∷ cs) = c ++ join cs

abbrev pub decoder : State → Bytes → List Bytes → Decoder
decoder state buffer reader = record { state = state; buffer = buffer; reader = reader }

-- A line has no carriage return.
abbrev pub IsLine : Bytes → Type 0
IsLine s = All (λ c. (c == 13) ≡ false) s

-- The buffer has the line break already, or it has not and the rest has.
index_of_crlf-some :
    (line buffer tail rest : Bytes) (i : ℕ)
    → IsLine line
    → buffer ++ tail ≡ line ++ (13 ∷ 10 ∷ rest)
    → index_of_crlf buffer ≡ some i
    → (left : Bytes) × (i ≡ length line)
      × (buffer ≡ line ++ (13 ∷ 10 ∷ left))
      × (left ++ tail ≡ rest)
index_of_crlf-some line [] tail rest i l e h = absurd (ground arith)
index_of_crlf-some line (a ∷ []) tail rest i l e h = absurd (ground arith)
index_of_crlf-some [] (a ∷ b ∷ s) tail rest i l e h =
    let first : a ≡ 13 = cc in
    let second : b ≡ 10 = cc in
    let others : s ++ tail ≡ rest = cc in
    let found : ((a == 13) && (b == 10)) ≡ true = ground arith in
    (s, ground arith, rw (first, second) refl, others)
index_of_crlf-some (x ∷ line) (a ∷ b ∷ s) tail rest i (plain, l) e h =
    let first : a ≡ x = cc in
    let others : (b ∷ s) ++ tail ≡ line ++ (13 ∷ 10 ∷ rest) = cc in
    let other : ((a == 13) && (b == 10)) ≡ false = ground arith in
    elim (Option-cases (index_of_crlf (b ∷ s))) [
      | inl none_later ↦ absurd (ground arith)
      | inr (k, later) ↦
          let (left, at, shape, end) = index_of_crlf-some line (b ∷ s) tail rest k l others later in
          (left, ground arith, rw first (ap (λ t. x ∷ t) shape), end)
    ]

index_of_crlf-whole :
    (line rest : Bytes)
    → IsLine line
    → index_of_crlf (line ++ (13 ∷ 10 ∷ rest)) ≡ some (length line)
index_of_crlf-whole [] rest l = refl
index_of_crlf-whole (a ∷ []) rest (x, l) = ground arith
index_of_crlf-whole (a ∷ b ∷ line) rest (x, l) =
    ground (arith, index_of_crlf-whole (b ∷ line) rest l)

drop-line : (line left : Bytes) → drop (length line + 2) (line ++ (13 ∷ 10 ∷ left)) ≡ left
drop-line [] left = refl
drop-line (a ∷ line) left =
    let e : suc (length line + 2) ≡ suc (length line) + 2 = omega arith in
    subst (λ k. drop k ((a ∷ line) ++ (13 ∷ 10 ∷ left)) ≡ left) e (drop-line line left)

module _ (decode : Bytes → Text) where
  -- The rounds from one decoder to another, with what they enqueue.
  pub data Leads : Decoder → Bytes → Decoder → Type 0 where
    stop : (d : Decoder) → Leads d [] d
    more :
        (d d' e : Decoder) (out : Bytes)
        → round decode d ≡ continue d'
        → Leads d' out e
        → Leads d out e
    emit :
        (d d' e : Decoder) (here out : Bytes)
        → round decode d ≡ enqueue here d'
        → Leads d' out e
        → Leads d (here ++ out) e

  pub Leads-trans : {d e f : Decoder} {x y : Bytes} → Leads d x e → Leads e y f → Leads d (x ++ y) f
  Leads-trans (stop d) k = k
  Leads-trans {f = f} {y = y} (more d d' e out r l) k = more d d' f (out ++ y) r (Leads-trans l k)
  Leads-trans {f = f} {y = y} (emit d d' e here out r l) k =
      subst (λ o. Leads d o f) (sym (append_assoc here out y))
        (emit d d' f here (out ++ y) r (Leads-trans l k))

  -- A decoder that leads to a close is read to its end in finitely many rounds.
  pub read_all-Leads :
      {d e : Decoder} {out : Bytes} (last : Decoder)
      → Leads d out e
      → round decode e ≡ close last
      → (fuel : ℕ) × (read_all decode fuel d ≡ some (closed out))
  unfolding read_all
  read_all-Leads last (stop d) r = (1, rw (read_all, r) refl)
  read_all-Leads last (more d d' e out s l) r =
      let (fuel, h) = read_all-Leads last l r in (suc fuel, rw (read_all, s) h)
  read_all-Leads last (emit d d' e here rest s l) r =
      let (fuel, h) = read_all-Leads last l r in (suc fuel, rw (read_all, s) (rw h refl))

  -- The round that finds the whole line.
  round-line :
      (line buffer left : Bytes) (reader : List Bytes) (i : ℕ)
      → index_of_crlf buffer ≡ some i
      → i ≡ length line
      → buffer ≡ line ++ (13 ∷ 10 ∷ left)
      → round_at decode header buffer reader ≡ after_header (size_of_line (decode line)) left reader
  unfolding round_at
  round-line line buffer left reader i h at shape =
      let front : take i buffer ≡ line = rw (shape, at) (take-append line (13 ∷ 10 ∷ left)) in
      let back : drop (i + 2) buffer ≡ left = rw (shape, at) (drop-line line left) in
      rw (round_at, h, front, back) refl

  -- The header: rounds that read until the line is whole, and the round of its size.
  pub header-Leads :
      (line buffer rest : Bytes) (reader : List Bytes)
      → IsLine line
      → buffer ++ join reader ≡ line ++ (13 ∷ 10 ∷ rest)
      → (whole left : Bytes) × (reader' : List Bytes) × (left ++ join reader' ≡ rest)
        × Leads (decoder header buffer reader) [] (decoder header whole reader')
        × (round_at decode header whole reader'
            ≡ after_header (size_of_line (decode line)) left reader')
  unfolding round
  header-Leads line buffer rest [] l e =
      let all : buffer ≡ line ++ (13 ∷ 10 ∷ rest) = sym (append-nil buffer) ∙ e in
      let found : index_of_crlf buffer ≡ some (length line) =
        rw all (index_of_crlf-whole line rest l) in
      (
        buffer,
        rest,
        [],
        append-nil rest,
        stop (decoder header buffer []),
        round-line line buffer rest [] (length line) found refl all,
      )
  header-Leads line buffer rest (c ∷ reader) l e = elim (Option-cases (index_of_crlf buffer)) [
    | inr (i, h) ↦
        let (left, at, shape, end) =
          index_of_crlf-some line buffer (c ++ join reader) rest i l e h in
        (
          buffer,
          left,
          c ∷ reader,
          end,
          stop (decoder header buffer (c ∷ reader)),
          round-line line buffer left (c ∷ reader) i h at shape,
        )
    | inl h ↦
        let (whole, left, reader', end, leads, r) =
          header-Leads line (buffer ++ c) rest reader l (append_assoc buffer c (join reader) ∙ e) in
        (
          whole,
          left,
          reader',
          end,
          more (decoder header buffer (c ∷ reader)) (decoder header (buffer ++ c) reader)
              (decoder header whole reader') [] (rw (round_at, h) refl) leads,
          r,
        )
  ]

  -- The line break after the data.
  pub crlf-Leads :
      (buffer rest : Bytes) (reader : List Bytes)
      → buffer ++ join reader ≡ 13 ∷ 10 ∷ rest
      → (left : Bytes) × (reader' : List Bytes) × (left ++ join reader' ≡ rest)
        × Leads (decoder crlf_after_data buffer reader) [] (decoder header left reader')
  unfolding round
  crlf-Leads (a ∷ b ∷ buffer) rest reader e = (
    buffer,
    reader,
    cc,
    more (decoder crlf_after_data (a ∷ b ∷ buffer) reader) (decoder header buffer reader)
        (decoder header buffer reader) []
        (let long : ltb (length (a ∷ b ∷ buffer)) 2 ≡ false = ground arith in rw long refl)
        (stop (decoder header buffer reader)),
  )
  crlf-Leads [] rest [] e = absurd (ground arith)
  crlf-Leads (a ∷ []) rest [] e = absurd (ground arith)
  crlf-Leads [] rest (c ∷ reader) e =
      let (left, reader', end, leads) = crlf-Leads c rest reader e in
      (
        left,
        reader',
        end,
        more (decoder crlf_after_data [] (c ∷ reader)) (decoder crlf_after_data c reader)
            (decoder header left reader') [] refl leads,
      )
  crlf-Leads (a ∷ []) rest (c ∷ reader) e =
      let (left, reader', end, leads) = crlf-Leads (a ∷ c) rest reader e in
      (
        left,
        reader',
        end,
        more (decoder crlf_after_data (a ∷ []) (c ∷ reader))
            (decoder crlf_after_data (a ∷ c) reader) (decoder header left reader') [] refl leads,
      )
