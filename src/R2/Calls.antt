-- ===== src/R2/Calls.antt =====
-- Histories of calls on a bucket of src/bindings/r2.ts, one after the other.
use lopata.Common.{ℕ, List, [], ◌∷◌, Text}
use lopata.R2.{Store, Value}
use lopata.R2.Objects.{FileR2Bucket, Runtime, R2PutOptions, put, delete, set_tags}
use lopata.R2.Multipart.{
  R2MultipartUpload, CreateOptions, create_multipart_upload, upload_part, complete, abort,
}

pub data Op : Type 0 where
  puts : (now : ℕ) (version key : Text) → Value → R2PutOptions → Op
  deletes : List Text → Op
  sets_tags : Text → List (Text × Text) → Op
  creates : (now : ℕ) (upload_id key : Text) → CreateOptions → Op
  uploads : R2MultipartUpload → ℕ → Value → Op
  completes : R2MultipartUpload → (now : ℕ) (version : Text) → List (ℕ × Text) → Op
  aborts : R2MultipartUpload → Op

unfoldable pub step : Runtime → FileR2Bucket → Store → Op → Store
unfolding put delete set_tags create_multipart_upload upload_part complete abort
step r b s (puts now version key value options) = (put r b now version key value options s).1
step r b s (deletes keys) = (delete b keys s).1
step r b s (sets_tags key tags) = set_tags b key tags s
step r b s (creates now upload_id key options) =
    (create_multipart_upload r b now upload_id key options s).1
step r b s (uploads u part_number body) = (upload_part r b u part_number body s).1
step r b s (completes u now version parts) = (complete r b u now version parts s).1
step r b s (aborts u) = abort b u s

unfoldable pub run : Runtime → FileR2Bucket → Store → List Op → Store
unfolding step
run r b s [] = s
run r b s (op ∷ ops) = run r b (step r b s op) ops
