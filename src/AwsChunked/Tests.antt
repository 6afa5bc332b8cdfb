-- ===== src/AwsChunked/Tests.antt =====
-- A body in chunks that cut through its framing, and the theorem about src/s3/chunked.ts at it.
use lopata.Common.{ℕ, ◌≡◌, refl, some, List, [], ◌∷◌, ◌++◌, map, Text, codes}
use lopata.AwsChunked.{
  Bytes, header, closed, failed, ends_inside_data, size_of_line, parse_hex, round_at, round,
  after_header, read_all,
}
use lopata.AwsChunked.Decoding.{join, decoder}
use lopata.AwsChunked.Framing.{Chunk, read_all-encode}

abbrev decode : Bytes → Text
decode bytes = bytes

abbrev chunks : List Chunk
chunks =
    record { line = codes "3;chunk-signature=ab"; payload = 1 ∷ 13 ∷ 10 ∷ [] }
    ∷ record { line = codes "2"; payload = 7 ∷ 8 ∷ [] }
    ∷ []

abbrev last_line : Bytes
last_line = codes "0;chunk-signature=cd"

abbrev reader : List Bytes
reader =
    codes "3;chunk"
    ∷ []
    ∷ (codes "-signature=ab" ++ (13 ∷ []))
    ∷ (10 ∷ 1 ∷ 13 ∷ [])
    ∷ (10 ∷ 13 ∷ [])
    ∷ (10 ∷ codes "2" ++ (13 ∷ 10 ∷ 7 ∷ 8 ∷ 13 ∷ 10 ∷ last_line ++ (13 ∷ 10 ∷ 13 ∷ 10 ∷ [])))
    ∷ []

decoding_run :
    read_all decode 20 (decoder header [] reader) ≡ some (closed (1 ∷ 13 ∷ 10 ∷ 7 ∷ 8 ∷ []))
unfolding read_all round round_at after_header size_of_line parse_hex
decoding_run = refl

cut_off_run :
    read_all decode 20 (decoder header [] ((52 ∷ 13 ∷ 10 ∷ 1 ∷ []) ∷ []))
    ≡ some (failed (1 ∷ []) ends_inside_data)
unfolding read_all round round_at after_header size_of_line parse_hex
cut_off_run = refl

read_all-encode_example :
    (fuel : ℕ) × (read_all decode fuel (decoder header [] reader)
      ≡ some (closed (join (map (λ c. c.payload) chunks))))
unfolding size_of_line parse_hex
read_all-encode_example =
    read_all-encode decode chunks last_line (13 ∷ 10 ∷ []) reader
      (
        (
          (
            refl,
            (
              refl,
              (
                refl,
                (
                  refl,
                  (
                    refl,
                    (
                      refl,
                      (
                        refl,
                        (
                          refl,
                          (
                            refl,
                            (
                              refl,
                              (
                                refl,
                                (
                                  refl,
                                  (
                                    refl,
                                    (refl, (refl, (refl, (refl, (refl, (refl, (refl, tt))))))),
                                  ),
                                ),
                              ),
                            ),
                          ),
                        ),
                      ),
                    ),
                  ),
                ),
              ),
            ),
          ),
          2,
          refl,
          refl,
        ),
        (((refl, tt), 1, refl, refl), tt),
      )
      (
        refl,
        (
          refl,
          (
            refl,
            (
              refl,
              (
                refl,
                (
                  refl,
                  (
                    refl,
                    (
                      refl,
                      (
                        refl,
                        (
                          refl,
                          (
                            refl,
                            (
                              refl,
                              (refl, (refl, (refl, (refl, (refl, (refl, (refl, (refl, tt)))))))),
                            ),
                          ),
                        ),
                      ),
                    ),
                  ),
                ),
              ),
            ),
          ),
        ),
      )
      refl refl
