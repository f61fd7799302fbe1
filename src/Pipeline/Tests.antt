-- ===== src/Pipeline/Tests.antt =====
-- Tests of the thumbnail, the digests and the fingerprint of src/pipeline.cpp.
use autodngconverter.Base.{
  All, ◌<◌, ◌%◌, map, length, arith, value_of, ℕ, zero, suc, ◌≡◌, refl, true, some, [], ◌∷◌, ◌++◌,
  Bytes, codes,
}
use autodngconverter.Pipeline.Schema.{date_parts}
use autodngconverter.Pipeline.Mtime.{
  Tm, exif_from_mtime, file_mtime_tm, put_time, year_text, two, date_parts-exif_from_mtime,
}
use autodngconverter.Pipeline.Digest.{Evp, sha256_bytes, sha256_file}
use autodngconverter.Pipeline.Digest.Chunks.{joined, Digests, sha256_file-sha256_bytes}
use autodngconverter.Pipeline.Digest.Hex.{from_hex}
use autodngconverter.Pipeline.Fingerprint.{fnv1a_64, fnv_from}
use autodngconverter.Pipeline.Thumbnail.{search, end_marker, better, thumbnail}
use autodngconverter.Pipeline.Thumbnail.Image.{IsImage, thumbnail-IsImage}

abbrev zeros : ℕ → Bytes
zeros zero = []
zeros (suc n) = 0 ∷ zeros n

abbrev image : Bytes
image = 255 ∷ 216 ∷ (zeros 60 ++ (255 ∷ 217 ∷ []))

-- A start without an end, a small image, and an image of 64 bytes.
abbrev dng : Bytes
dng = 7 ∷ 255 ∷ 216 ∷ 1 ∷ 255 ∷ 217 ∷ 9 ∷ (image ++ (255 ∷ 216 ∷ 3 ∷ []))

largest : thumbnail dng ≡ some image
unfolding thumbnail search end_marker better
largest = refl

thumbnail-IsImage_example :
    IsImage image × ((before : Bytes) × (after : Bytes) × (dng ≡ before ++ (image ++ after)))
thumbnail-IsImage_example = thumbnail-IsImage dng image largest

-- The published value of the hash of "a".
fnv_a : fnv1a_64 (codes "a") ≡ 0xaf63dc4c8601ec8c
unfolding fnv1a_64 fnv_from
fnv_a = refl

low : (s : Bytes) → All (λ b. b < 256) (map (λ b. b % 256) s)
low [] = tt
low (b ∷ s) = (omega arith, low s)

-- A library whose digest is the bytes themselves, each below 256.
abbrev evp : Evp
evp = record {
  has_context = true;
  init = true;
  update = λ us u. true;
  final = λ us. some (map (λ b. b % 256) (joined us));
}

abbrev digests : Digests evp
digests = record {
  hash = λ bytes. map (λ b. b % 256) bytes;
  updates = λ us u. refl;
  finals = λ us. refl;
  bytes = low;
}

sha256_file-sha256_bytes_example :
    (sha256_file evp (some (codes "ab")) ≡ sha256_bytes evp (codes "ab"))
    × (from_hex (sha256_bytes evp (codes "ab")) ≡ codes "ab")
    × (length (sha256_bytes evp (codes "ab")) ≡ 4)
sha256_file-sha256_bytes_example = sha256_file-sha256_bytes evp digests (codes "ab") refl refl

abbrev evening : ℕ → Tm
evening t = record { year = 2026; month = 7; day = 5; hour = 21; minute = 4; second = 59 }

date_parts-exif_from_mtime_example :
    (value_of 0 (date_parts (exif_from_mtime (some 7) evening).date).y ≡ 2026)
    × (value_of 0 (date_parts (exif_from_mtime (some 7) evening).date).m ≡ 7)
    × (value_of 0 (date_parts (exif_from_mtime (some 7) evening).date).d ≡ 5)
date_parts-exif_from_mtime_example =
    date_parts-exif_from_mtime 7 evening (omega arith) (omega arith) (omega arith)

clock : (exif_from_mtime (some 7) evening).time ≡ codes "21:04:59"
unfolding exif_from_mtime file_mtime_tm put_time year_text two
clock = refl
