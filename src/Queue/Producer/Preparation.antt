-- ===== src/Queue/Producer/Preparation.antt =====
-- What the encoding of one message of a batch demands.
use lopata.Common.{
  ok, inv-bind, ℕ, ◌≤◌, ◌≡◌, refl, subst, false, or_else, List, take, drop, arith, inl, inr,
  Bool-cases, ltb, length,
}
use lopata.Queue.{ContentType, json, text, bytes, v8}
use lopata.Queue.Bodies.{Body, array_buffer, uint8_array, view, value, encode_bytes, encode_body}
use lopata.Queue.Producer.{
  SendOptions, BatchMessage, Producer, Encoded, Seconds, plus, minus, checked_delay, prepare,
  prepare_one,
}

module _ {J : Type 0} (to_text stringify : Body J → List ℕ) (p : Producer)
    (options : SendOptions) where
  -- The bytes of a message under a content type.
  pub data Encodes : Body J → ContentType → List ℕ → Type 0 where
    as_text : (m : Body J) → Encodes m text (to_text m)
    as_json : (m : Body J) → Encodes m json (stringify m)
    as_v8 : (m : Body J) → Encodes m v8 (stringify m)
    of_buffer : (content : List ℕ) → Encodes (array_buffer content) bytes content
    of_array : (content : List ℕ) → Encodes (uint8_array content) bytes content
    of_view :
        (buffer : List ℕ) (offset size : ℕ)
        → Encodes (view buffer offset size) bytes (take size (drop offset buffer))

  -- The content type and the delay are those of the message, else of the call, else the defaults; the
  -- delay is not negative, and it and the encoded size are within their limits.
  pub record Fits (m : BatchMessage J) (e : Encoded) : Type 0 where
    pub typed : or_else m.options.content_type (or_else options.content_type json) ≡ e.content_type
    pub encodes : Encodes m.body e.content_type e.content
    pub size_fits : length e.content ≤ p.limits.max_message_size
    pub delayed :
        or_else m.options.delay_seconds (or_else options.delay_seconds p.default_delay)
        ≡ plus e.delay_seconds
    pub delay_fits : e.delay_seconds ≤ p.limits.max_delay_seconds

  encode_body_sound :
      (m : Body J) (t : ContentType) (content : List ℕ)
      → encode_body to_text stringify m t ≡ ok content
      → Encodes m t content
  unfolding encode_body encode_bytes
  encode_body_sound m text content h =
      let same : to_text m ≡ content = ground arith in subst (Encodes m text) same (as_text m)
  encode_body_sound m json content h =
      let same : stringify m ≡ content = ground arith in subst (Encodes m json) same (as_json m)
  encode_body_sound m v8 content h =
      let same : stringify m ≡ content = ground arith in subst (Encodes m v8) same (as_v8 m)
  encode_body_sound (array_buffer buffer) bytes content h =
      let same : buffer ≡ content = ground arith in
      subst (Encodes (array_buffer buffer) bytes) same (of_buffer buffer)
  encode_body_sound (uint8_array array) bytes content h =
      let same : array ≡ content = ground arith in
      subst (Encodes (uint8_array array) bytes) same (of_array array)
  encode_body_sound (view buffer offset size) bytes content h =
      let same : take size (drop offset buffer) ≡ content = ground arith in
      subst (Encodes (view buffer offset size) bytes) same (of_view buffer offset size)
  encode_body_sound (value j) bytes content h = absurd (ground arith)

  encode_body_complete :
      (m : Body J) (t : ContentType) (content : List ℕ)
      → Encodes m t content
      → encode_body to_text stringify m t ≡ ok content
  unfolding encode_body encode_bytes
  encode_body_complete _ _ _ (as_text m) = refl
  encode_body_complete _ _ _ (as_json m) = refl
  encode_body_complete _ _ _ (as_v8 m) = refl
  encode_body_complete _ _ _ (of_buffer content) = refl
  encode_body_complete _ _ _ (of_array content) = refl
  encode_body_complete _ _ _ (of_view buffer offset size) = refl

  checked_delay_sound :
      (d : Seconds) (n : ℕ)
      → checked_delay p.limits d ≡ ok n
      → (d ≡ plus n) × (n ≤ p.limits.max_delay_seconds)
  unfolding checked_delay
  checked_delay_sound (plus k) n h = ground arith
  checked_delay_sound (minus k) n h = absurd (ground arith)

  checked_delay_complete :
      (d : Seconds) (n : ℕ)
      → d ≡ plus n
      → n ≤ p.limits.max_delay_seconds
      → checked_delay p.limits d ≡ ok n
  unfolding checked_delay
  checked_delay_complete (plus k) n e h = ground arith
  checked_delay_complete (minus k) n e h = absurd (ground arith)

  pub prepare_one_sound :
      (m : BatchMessage J) (e : Encoded)
      → prepare_one to_text stringify p options m ≡ ok e
      → Fits m e
  unfolding prepare_one prepare
  prepare_one_sound m e h =
      let type = or_else m.options.content_type (or_else options.content_type json) in
      let delay = or_else m.options.delay_seconds (or_else options.delay_seconds p.default_delay) in
      let (seconds, a, h1) = inv-bind (checked_delay p.limits delay) _ h in
      let (content, b, h2) = inv-bind (encode_body to_text stringify m.body type) _ h1 in
      elim (Bool-cases (ltb p.limits.max_message_size (length content))) [
        | inl big ↦ absurd (ground arith)
        | inr fits ↦
            let same : record { content = content; content_type = type; delay_seconds = seconds }
                ≡ e =
              ground arith in
            let (asked, in_range) = checked_delay_sound delay seconds a in
            subst (Fits m) same (record {
              typed = refl;
              encodes = encode_body_sound m.body type content b;
              size_fits = ground arith;
              delayed = asked;
              delay_fits = in_range;
            })
      ]

  pub prepare_one_complete :
      (m : BatchMessage J) (e : Encoded)
      → Fits m e
      → prepare_one to_text stringify p options m ≡ ok e
  unfolding prepare_one prepare
  prepare_one_complete m e f =
      let small : ltb p.limits.max_message_size (length e.content) ≡ false =
        let fits = f.size_fits in ground arith in
      rw
        (
          checked_delay_complete _ e.delay_seconds f.delayed f.delay_fits,
          f.typed,
          encode_body_complete m.body e.content_type e.content f.encodes,
          small,
        )
        refl
