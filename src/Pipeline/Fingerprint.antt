-- ===== src/Pipeline/Fingerprint.antt =====
-- `fnv1a_64` and `compute_fast_fingerprint` of src/pipeline.cpp. What `stat` says of a path is given, and
-- so is the content of a file that can be opened; bytes are below 256.
use Prim.Native.Nat.{bit_xor}
use autodngconverter.Base.{ℕ, ◌*◌, ◌%◌, ◌^◌, ◌<◌, Option, none, some, [], ◌∷◌, arith, Bytes, take}
use autodngconverter.Pipeline.Types.{FastFingerprint}

abbrev offset_basis : ℕ
offset_basis = 0xcbf29ce484222325

abbrev prime : ℕ
prime = 0x100000001b3

-- The loop, from a hash on.
unfoldable pub fnv_from : ℕ → Bytes → ℕ
fnv_from hash [] = hash
fnv_from hash (b ∷ bs) = fnv_from ((bit_xor hash b * prime) % 2 ^ 64) bs

unfoldable pub fnv1a_64 : Bytes → ℕ
fnv1a_64 bytes = fnv_from offset_basis bytes

-- The first read of the file; an empty one leaves the hash 0.
unfoldable pub head_hash : Bytes → ℕ
head_hash [] = 0
head_hash (b ∷ bs) = fnv1a_64 (b ∷ bs)

abbrev content_hash : Option Bytes → ℕ
content_hash none = 0
content_hash (some content) = head_hash (take 4096 content)

-- The size and the modification time, if `stat` succeeds, and the content, if the file opens.
unfoldable pub compute_fast_fingerprint : Option (ℕ × ℕ) → Option Bytes → FastFingerprint
compute_fast_fingerprint none content = record { size = 0; mtime = 0; fnv1a_4k = 0 }
compute_fast_fingerprint (some (size, mtime)) content = record {
  size = size % 2 ^ 64;
  mtime = mtime % 2 ^ 64;
  fnv1a_4k = content_hash content;
}

fnv_from-lt : (hash : ℕ) (bytes : Bytes) → hash < 2 ^ 64 → fnv_from hash bytes < 2 ^ 64
unfolding fnv_from
fnv_from-lt hash [] h = h
fnv_from-lt hash (b ∷ bs) h = fnv_from-lt ((bit_xor hash b * prime) % 2 ^ 64) bs (omega arith)

-- The hash is a word of 64 bits.
pub fnv1a_64-lt : (bytes : Bytes) → fnv1a_64 bytes < 2 ^ 64
unfolding fnv1a_64
fnv1a_64-lt bytes = fnv_from-lt offset_basis bytes (omega arith)

head_hash-lt : (bytes : Bytes) → head_hash bytes < 2 ^ 64
unfolding head_hash
head_hash-lt [] = omega arith
head_hash-lt (b ∷ bs) = fnv1a_64-lt (b ∷ bs)

content_hash-lt : (o : Option Bytes) → content_hash o < 2 ^ 64
content_hash-lt none = omega arith
content_hash-lt (some content) = head_hash-lt (take 4096 content)

-- Every field of a fingerprint is a word of 64 bits, whatever `stat` and the file give.
pub compute_fast_fingerprint-bounds :
    (stat : Option (ℕ × ℕ)) (content : Option Bytes)
    → ((compute_fast_fingerprint stat content).size < 2 ^ 64)
      × ((compute_fast_fingerprint stat content).mtime < 2 ^ 64)
      × ((compute_fast_fingerprint stat content).fnv1a_4k < 2 ^ 64)
unfolding compute_fast_fingerprint
compute_fast_fingerprint-bounds none content = (omega arith, omega arith, omega arith)
compute_fast_fingerprint-bounds (some (size, mtime)) content =
    (omega arith, omega arith, content_hash-lt content)
