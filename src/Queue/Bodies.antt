-- ===== src/Queue/Bodies.antt =====
-- `encodeBody` and `decodeBody` of src/bindings/queue.ts. A message is an `ArrayBuffer`, a view of
-- one, or any other value; `JSON.stringify` and `String` with the UTF-8 encoder, and their
-- inverses, are parameters.
use lopata.Common.{Result, ok, throw, ℕ, Option, List, take, drop}
use lopata.Queue.{ContentType, json, text, bytes, v8}

pub data Body (J : Type 0) : Type 0 where
  array_buffer : List ℕ → Body J
  uint8_array : List ℕ → Body J
  view : (buffer : List ℕ) (offset size : ℕ) → Body J
  value : J → Body J

pub data Error : Type 0 where
  bytes_required bad_delay message_too_big too_many_messages batch_too_big : Error

-- `to_text` is `String` and `stringify` is `JSON.stringify`, each followed by the UTF-8 encoder.
module _ {J : Type 0} (to_text stringify : Body J → List ℕ) where
  unfoldable pub encode_bytes : Body J → Result Error (List ℕ)
  encode_bytes (array_buffer buffer) = ok buffer
  encode_bytes (uint8_array content) = ok content
  encode_bytes (view buffer offset size) = ok (take size (drop offset buffer))
  encode_bytes (value j) = throw bytes_required

  unfoldable pub encode_body : Body J → ContentType → Result Error (List ℕ)
  unfolding encode_bytes
  encode_body message bytes = encode_bytes message
  encode_body message text = ok (to_text message)
  encode_body message v8 = ok (stringify message)
  encode_body message json = ok (stringify message)

-- What a consumer is given: the bytes, a string, or a parsed value.
pub data Decoded (J : Type 0) : Type 0 where
  buffer : List ℕ → Decoded J
  string : List ℕ → Decoded J
  parsed : Option J → Decoded J

-- `parse` is the UTF-8 decoder with `JSON.parse`, `none` where that throws.
module _ {J : Type 0} (parse : List ℕ → Option J) where
  unfoldable pub decode_body : List ℕ → ContentType → Decoded J
  decode_body raw bytes = buffer raw
  decode_body raw text = string raw
  decode_body raw v8 = parsed (parse raw)
  decode_body raw json = parsed (parse raw)
