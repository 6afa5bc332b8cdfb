-- ===== src/AwsChunked.antt =====
-- src/s3/chunked.ts, decodeAwsChunked. The reader is the list of chunks that it will give; the decoder of UTF-8 is
-- a parameter. The loop that waits for two bytes after the data is the outer loop in the same state.
pub mod Decoding
pub mod Payloads
pub mod Framing
mod Tests
use lopata.Common.{
  ℕ, zero, suc, ◌+◌, ◌*◌, ◌-◌, min, Bool, true, false, not, ◌&&◌, ◌||◌, Option, none, some, List,
  [], ◌∷◌, ◌++◌, leb, ltb, ◌==◌, if◌then◌else◌, length, take, drop, drop_last, is_nil, Text, codes,
  text_eq, split_on, trim, is_space,
}

abbrev pub Bytes : Type 0
Bytes = List ℕ

pub is_aws_chunked : Option Text → Bool
is_aws_chunked none = false
is_aws_chunked (some h) =
    text_eq h (codes "STREAMING-AWS4-HMAC-SHA256-PAYLOAD")
    || (text_eq h (codes "STREAMING-UNSIGNED-PAYLOAD-TRAILER")
        || text_eq h (codes "STREAMING-AWS4-HMAC-SHA256-PAYLOAD-TRAILER"))

-- `overdrawn n` is the state with the remaining size -n, after a size that starts with a minus sign.
pub data State : Type 0 where
  header : State
  data_left : (remaining : ℕ) → State
  overdrawn : (size : ℕ) → State
  crlf_after_data : State
  done : State

pub record Decoder : Type 0 where
  pub state : State
  pub buffer : Bytes
  pub reader : List Bytes

pub data Error : Type 0 where
  invalid_chunk_size ends_inside_data ends_before_crlf : Error

-- What one round of the loop of `pull` does: it goes on, or returns after enqueuing, closing or failing.
pub data Round : Type 0 where
  continue : Decoder → Round
  enqueue : Bytes → Decoder → Round
  close : Decoder → Round
  fail : Error → Round

abbrev pub index_of_crlf : Bytes → Option ℕ
index_of_crlf [] = none
index_of_crlf (a ∷ []) = none
index_of_crlf (a ∷ b ∷ s) =
    if (a == 13) && (b == 10)
    then some 0
    else elim (index_of_crlf (b ∷ s)) [ none ↦ none | some i ↦ some (suc i) ]

-- The value of a hexadecimal digit.
abbrev pub hex_digit : ℕ → Option ℕ
hex_digit c =
    if leb 48 c && leb c 57
    then some (c - 48)
    else if leb 65 c && leb c 70
    then some (c - 55)
    else if leb 97 c && leb c 102
    then some (c - 87)
    else none

abbrev pub hex_from : ℕ → Text → ℕ
hex_from n [] = n
hex_from n (c ∷ s) = elim (hex_digit c) [ none ↦ n | some d ↦ hex_from (16 * n + d) s ]

abbrev pub hex_number : Text → Option ℕ
hex_number [] = none
hex_number (c ∷ s) = elim (hex_digit c) [ none ↦ none | some d ↦ some (hex_from d s) ]

-- A prefix 0x is skipped.
abbrev pub strip_0x : Text → Text
strip_0x [] = []
strip_0x (a ∷ []) = a ∷ []
strip_0x (a ∷ b ∷ s) = if (a == 48) && ((b == 120) || (b == 88)) then s else a ∷ b ∷ s

-- `parseInt(s, 16)` of a trimmed text: NaN, or a number by its size and whether it is negative.
pub data Size : Type 0 where
  nan : Size
  positive negative : ℕ → Size

unfoldable pub parse_hex : Text → Size
parse_hex [] = nan
parse_hex (c ∷ s) =
    if c == 45
    then elim (hex_number (strip_0x s)) [ none ↦ nan | some n ↦ negative n ]
    else if c == 43
    then elim (hex_number (strip_0x s)) [ none ↦ nan | some n ↦ positive n ]
    else elim (hex_number (strip_0x (c ∷ s))) [ none ↦ nan | some n ↦ positive n ]

abbrev pub first_part : List Text → Text
first_part [] = []
first_part (p ∷ ps) = p

unfoldable pub size_of_line : Text → Size
unfolding parse_hex
size_of_line line = parse_hex (trim (first_part (split_on 59 line)))

-- The state after a header of a size, with the rest of the buffer.
unfoldable pub after_header : Size → Bytes → List Bytes → Round
after_header nan buffer reader = fail invalid_chunk_size
after_header (positive zero) buffer reader =
    close (record { state = done; buffer = buffer; reader = reader })
after_header (negative zero) buffer reader =
    close (record { state = done; buffer = buffer; reader = reader })
after_header (positive (suc n)) buffer reader =
    continue (record { state = data_left (suc n); buffer = buffer; reader = reader })
after_header (negative (suc n)) buffer reader =
    continue (record { state = overdrawn (suc n); buffer = buffer; reader = reader })

-- The buffer with the next chunk of the reader, or what the code does at its end.
abbrev pub read : State → Bytes → List Bytes → Round → Round
read state buffer [] at_end = at_end
read state buffer (chunk ∷ reader) at_end =
    continue (record { state = state; buffer = buffer ++ chunk; reader = reader })

abbrev pub after_data : ℕ → State
after_data zero = crlf_after_data
after_data (suc n) = data_left (suc n)

-- What a client reads from the stream until it closes or fails.
pub data Ending : Type 0 where
  closed : Bytes → Ending
  failed : Bytes → Error → Ending

abbrev pub add : Bytes → Ending → Ending
add out (closed rest) = closed (out ++ rest)
add out (failed rest e) = failed (out ++ rest) e

module _ (decode : Bytes → Text) where
  unfoldable pub round_at : State → Bytes → List Bytes → Round
  unfolding size_of_line after_header
  round_at done buffer reader = close (record { state = done; buffer = buffer; reader = reader })
  round_at header buffer reader = elim (index_of_crlf buffer) [
    | none ↦
        read header buffer reader (close (record { state = header; buffer = buffer; reader = [] }))
    | some i ↦ after_header (size_of_line (decode (take i buffer))) (drop (i + 2) buffer) reader
  ]
  round_at (data_left n) [] reader = read (data_left n) [] reader (fail ends_inside_data)
  round_at (data_left n) (b ∷ buffer) reader =
      let taken = min n (length (b ∷ buffer)) in
      enqueue (take taken (b ∷ buffer)) (record {
        state = after_data (n - taken);
        buffer = drop taken (b ∷ buffer);
        reader = reader;
      })
  round_at (overdrawn n) [] reader = read (overdrawn n) [] reader (fail ends_inside_data)
  round_at (overdrawn n) (b ∷ buffer) reader = enqueue (drop_last n (b ∷ buffer)) (record {
    state = crlf_after_data;
    buffer = drop (length (b ∷ buffer) - n) (b ∷ buffer);
    reader = reader;
  })
  round_at crlf_after_data buffer reader =
      if ltb (length buffer) 2
      then read crlf_after_data buffer reader (fail ends_before_crlf)
      else continue (record { state = header; buffer = drop 2 buffer; reader = reader })

  unfoldable pub round : Decoder → Round
  unfolding round_at
  round d = round_at d.state d.buffer d.reader

  unfoldable pub read_all : (fuel : ℕ) → Decoder → Option Ending
  unfolding round
  read_all zero d = none
  read_all (suc fuel) d = elim (round d) [
    | close _ ↦ some (closed [])
    | fail e ↦ some (failed [] e)
    | continue d' ↦ read_all fuel d'
    | enqueue out d' ↦ elim (read_all fuel d') [ none ↦ none | some e ↦ some (add out e) ]
  ]
