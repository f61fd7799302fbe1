-- ===== src/Pipeline/Digest.antt =====
-- `to_hex`, `sha256_bytes` and `sha256_file` of src/pipeline.cpp. The digest of the library answers by the
-- updates that it was given, newest first; a file is given by the bytes that can be read from it, up to its end or to an error of
-- reading, which the code does not tell from the end, and is `none` if it cannot be opened.
pub mod Chunks
pub mod Hex
use autodngconverter.Base.{
  ℕ, zero, suc, ◌+◌, ◌-◌, ◌/◌, ◌%◌, Bool, true, false, Option, none, some, List, [], ◌∷◌, Bytes,
  length, take, drop, ltb, is_empty, if◌then◌else◌,
}

unfoldable pub hex_digit : ℕ → ℕ
hex_digit n = if ltb n 10 then b'0' + n else b'a' + (n - 10)

-- Two digits for each byte.
unfoldable pub to_hex : Bytes → Bytes
to_hex [] = []
to_hex (b ∷ bs) = hex_digit (b / 16) ∷ hex_digit (b % 16) ∷ to_hex bs

-- `EVP_MD_CTX_new`, `EVP_DigestInit_ex`, `EVP_DigestUpdate` and `EVP_DigestFinal_ex`.
pub record Evp : Type 0 where
  pub has_context : Bool
  pub init : Bool
  pub update : List Bytes → Bytes → Bool
  pub final : List Bytes → Option Bytes

-- An empty text for a failure.
unfoldable pub hex_or_empty : Option Bytes → Bytes
hex_or_empty none = []
hex_or_empty (some digest) = to_hex digest

module _ (evp : Evp) where
  unfoldable pub sha256_bytes : Bytes → Bytes
  sha256_bytes bytes =
      if evp.has_context
      then (if evp.init
          then (if evp.update [] bytes then hex_or_empty (evp.final (bytes ∷ [])) else [])
          else [])
      else []

  -- An empty read is no update.
  unfoldable pub update_chunk : Bytes → List Bytes → Option (List Bytes)
  update_chunk [] us = some us
  update_chunk (b ∷ bs) us = if evp.update us (b ∷ bs) then some ((b ∷ bs) ∷ us) else none

  -- The loop over what is left of the file, by a buffer of a size; a short read is the last one. The
  -- fuel bounds the length, and its end is a failure.
  unfoldable pub update_all : ℕ → ℕ → Bytes → List Bytes → Option (List Bytes)
  update_all zero size rest us = none
  update_all (suc fuel) size rest us = elim (update_chunk (take size rest) us) [
    | none ↦ none
    | some vs ↦ elim (ltb (length rest) size) [
      | true ↦ some vs
      | false ↦ update_all fuel size (drop size rest) vs
    ]
  ]

  unfoldable pub finish : Option (List Bytes) → Bytes
  finish none = []
  finish (some us) = hex_or_empty (evp.final us)

  unfoldable pub sha256_file : Option Bytes → Bytes
  sha256_file none = []
  sha256_file (some content) =
      if evp.has_context
      then (if evp.init then finish (update_all (suc (length content)) 65536 content []) else [])
      else []
