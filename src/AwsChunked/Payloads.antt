-- ===== src/AwsChunked/Payloads.antt =====
-- The rounds in which src/s3/chunked.ts enqueues the data of one chunk.
use lopata.Common.{
  ℕ, suc, ◌+◌, ◌-◌, ◌≤◌, min, ◌≡◌, refl, ◌∙◌, sym, ap, subst, List, [], ◌∷◌, ◌++◌, append-nil, leb,
  length, take, drop, length-append, take-append, drop-append, arith, Bool-cases, inl, inr, Text,
}
use lopata.AwsChunked.{Bytes, data_left, crlf_after_data, Decoder, round_at, round}
use lopata.AwsChunked.Decoding.{join, decoder, Leads, stop, more, emit}

-- Of two ways to cut a text, the shorter front is a prefix of the longer.
split_at :
    (front longer tail rest : Bytes)
    → length front ≤ length longer
    → longer ++ tail ≡ front ++ rest
    → (left : Bytes) × (longer ≡ front ++ left) × (left ++ tail ≡ rest)
split_at [] longer tail rest h e = (longer, refl, e)
split_at (a ∷ front) [] tail rest h e = absurd (omega (arith, h))
split_at (a ∷ front) (b ∷ longer) tail rest h e =
    let same : b ≡ a = cc in
    let others : longer ++ tail ≡ front ++ rest = cc in
    let (left, shape, end) = split_at front longer tail rest (omega (arith, h)) others in
    (left, rw same (ap (λ t. a ∷ t) shape), end)

module _ (decode : Bytes → Text) where
  -- The buffer holds all the data.
  last-Leads :
      (payload buffer left : Bytes) (reader : List Bytes) (n : ℕ)
      → length payload ≡ suc n
      → buffer ≡ payload ++ left
      → Leads decode
          (decoder (data_left (suc n)) buffer reader)
          payload
          (decoder crlf_after_data left reader)
  unfolding round
  last-Leads [] buffer left reader n size shape = absurd (ground arith)
  last-Leads (p ∷ payload) buffer left reader n size shape =
      let longer : suc n ≤ length (p ∷ payload ++ left) =
        omega (arith, length-append (p ∷ payload) left, size) in
      let taken : min (suc n) (length (p ∷ payload ++ left)) ≡ suc n = omega (arith, longer) in
      let len : n ≡ length payload = omega (arith, size) in
      let all : take n (payload ++ left) ≡ payload =
        ap (λ k. take k (payload ++ left)) len ∙ take-append payload left in
      let others : drop n (payload ++ left) ≡ left =
        ap (λ k. drop k (payload ++ left)) len ∙ drop-append payload left in
      let none_left : suc n - suc n ≡ 0 = omega arith in
      subst
        (λ b.
          Leads decode (decoder (data_left (suc n)) b reader) (p ∷ payload)
            (decoder crlf_after_data left reader))
        (sym shape)
        (subst
          (λ o.
            Leads decode (decoder (data_left (suc n)) (p ∷ payload ++ left) reader) o
              (decoder crlf_after_data left reader))
          (append-nil (p ∷ payload))
          (emit (decoder (data_left (suc n)) (p ∷ payload ++ left) reader)
            (decoder crlf_after_data left reader) (decoder crlf_after_data left reader)
            (p ∷ payload) [] (rw (round_at, taken, none_left, all, others) refl)
            (stop (decoder crlf_after_data left reader))))

  -- The buffer is shorter than the data.
  short-Leads :
      (buffer later chunk : Bytes) (reader : List Bytes) (n : ℕ) (e : Decoder)
      → Leads decode (decoder (data_left (suc n)) chunk reader) later e
      → Leads decode
          (decoder (data_left (length buffer + suc n)) buffer (chunk ∷ reader))
          (buffer ++ later)
          e
  unfolding round
  short-Leads [] later chunk reader n e l =
      let same : suc n ≡ 0 + suc n = omega arith in
      subst (λ k. Leads decode (decoder (data_left k) [] (chunk ∷ reader)) later e) same
        (more (decoder (data_left (suc n)) [] (chunk ∷ reader))
          (decoder (data_left (suc n)) chunk reader) e later refl l)
  short-Leads (b ∷ buffer) later chunk reader n e l =
      let size = length (b ∷ buffer) in
      let taken : min (size + suc n) size ≡ size = omega arith in
      let all : take size (b ∷ buffer) ≡ b ∷ buffer =
        ap (take size) (sym (append-nil (b ∷ buffer))) ∙ take-append (b ∷ buffer) [] in
      let others : drop size (b ∷ buffer) ≡ [] =
        ap (drop size) (sym (append-nil (b ∷ buffer))) ∙ drop-append (b ∷ buffer) [] in
      let left : size + suc n - size ≡ suc n = omega arith in
      emit (decoder (data_left (size + suc n)) (b ∷ buffer) (chunk ∷ reader))
        (decoder (data_left (suc n)) [] (chunk ∷ reader)) e (b ∷ buffer) later
        (rw (round_at, taken, left, all, others) refl)
        (more (decoder (data_left (suc n)) [] (chunk ∷ reader))
          (decoder (data_left (suc n)) chunk reader) e later refl l)

  -- The data: rounds that enqueue all of them and nothing else.
  pub data-Leads :
      (payload buffer rest : Bytes) (reader : List Bytes) (n : ℕ)
      → length payload ≡ suc n
      → buffer ++ join reader ≡ payload ++ rest
      → (left : Bytes) × (reader' : List Bytes) × (left ++ join reader' ≡ rest)
        × Leads decode
            (decoder (data_left (suc n)) buffer reader)
            payload
            (decoder crlf_after_data left reader')
  data-Leads payload buffer rest [] n size e =
      let longer : length payload ≤ length buffer =
        omega (arith, length-append buffer [], length-append payload rest, ap length e) in
      let (left, shape, end) = split_at payload buffer [] rest longer e in
      (left, [], end, last-Leads payload buffer left [] n size shape)
  data-Leads payload buffer rest (c ∷ reader) n size e =
      elim (Bool-cases (leb (length payload) (length buffer))) [
        | inl longer ↦
            let (left, shape, end) =
              split_at payload buffer (c ++ join reader) rest (ground arith) e in
            (left, c ∷ reader, end, last-Leads payload buffer left (c ∷ reader) n size shape)
        | inr shorter ↦
            let (later, shape, end) =
              split_at buffer payload rest (c ++ join reader) (ground arith) (sym e) in
            let parts : length payload ≡ length buffer + length later =
              ap length shape ∙ length-append buffer later in
            let m = length later - 1 in
            let some_later : length later ≡ suc m = ground (arith, parts) in
            let (left, reader', end', leads) =
              data-Leads later c rest reader m some_later (sym end) in
            let total : length buffer + suc m ≡ suc n = omega (arith, parts, some_later, size) in
            (
              left,
              reader',
              end',
              subst
                  (λ p.
                    Leads decode (decoder (data_left (suc n)) buffer (c ∷ reader)) p
                      (decoder crlf_after_data left reader'))
                  (sym shape)
                  (subst
                    (λ k.
                      Leads decode (decoder (data_left k) buffer (c ∷ reader)) (buffer ++ later)
                        (decoder crlf_after_data left reader'))
                    total
                    (short-Leads buffer later c reader m (decoder crlf_after_data left reader')
                      leads)),
            )
      ]
