-- ===== src/Pipeline/Digest/Chunks.antt =====
-- The digest of a file of src/pipeline.cpp is that of its bytes, however long it is.
use autodngconverter.Base.{
  ℕ, zero, suc, All, ◌*◌, ◌<◌, ◌≤◌, ◌≡◌, refl, sym, ap, ◌∙◌, Bool, true, false, Option, none, some,
  List, [], ◌∷◌, ◌++◌, arith, Bytes, length, length-drop, take, drop, take-append-drop, ltb, ltb→lt,
  append_assoc, append-nil,
}
use mathlib.Core.Path.{subst}
use autodngconverter.Pipeline.Digest.Hex.{from_hex, from_hex-to_hex}
use autodngconverter.Pipeline.Digest.{
  to_hex, Evp, hex_or_empty, update_chunk, update_all, finish, sha256_bytes, sha256_file,
}

-- The bytes of the updates, oldest first.
abbrev pub joined : List Bytes → Bytes
joined [] = []
joined (u ∷ us) = joined us ++ u

-- What the library documents: an update of a started digest succeeds, and the digest is that of all
-- bytes in their order, however they were divided.
pub record Digests (evp : Evp) : Type 0 where
  pub hash : Bytes → Bytes
  pub updates : (us : List Bytes) (u : Bytes) → evp.update us u ≡ true
  pub finals : (us : List Bytes) → evp.final us ≡ some (hash (joined us))
  pub bytes : (content : Bytes) → All (λ b. b < 256) (hash content)

-- All of the rest has been given.
abbrev Gave : Bytes → Option (List Bytes) → Type 0
Gave bytes none = ⊥
Gave bytes (some us) = joined us ≡ bytes

take-all : (n : ℕ) (s : Bytes) → length s < n → take n s ≡ s
take-all zero s h = absurd (omega arith)
take-all (suc n) [] h = refl
take-all (suc n) (c ∷ s) h = ap (c ∷◌) (take-all n s (omega arith))

module _ (evp : Evp) (doc : Digests evp) where
  update_chunk-Gave :
      (chunk : Bytes) (us : List Bytes) → Gave (joined us ++ chunk) (update_chunk evp chunk us)
  unfolding update_chunk
  update_chunk-Gave [] us = sym (append-nil (joined us))
  update_chunk-Gave (b ∷ bs) us = rw (doc.updates us (b ∷ bs)) refl

  abbrev behind : ℕ → ℕ → Bytes → List Bytes → Bool → Option (List Bytes)
  behind fuel size rest vs v = elim v [
    | true ↦ some vs
    | false ↦ update_all evp fuel size (drop size rest) vs
  ]

  abbrev next : ℕ → ℕ → Bytes → Option (List Bytes) → Option (List Bytes)
  next fuel size rest o = elim o [
    | none ↦ none
    | some vs ↦ behind fuel size rest vs (ltb (length rest) size)
  ]

  behind-Gave :
      (fuel size : ℕ) (rest : Bytes) (us vs : List Bytes) (v : Bool)
      → joined vs ≡ joined us ++ take size rest
      → ltb (length rest) size ≡ v
      → (v ≡ false
          → Gave (joined vs ++ drop size rest) (update_all evp fuel size (drop size rest) vs))
      → Gave (joined us ++ rest) (behind fuel size rest vs v)
  behind-Gave fuel size rest us vs true e l h =
      e ∙ ap (joined us ++◌) (take-all size rest (ltb→lt (length rest) size l))
  behind-Gave fuel size rest us vs false e l h =
      subst (λ bytes. Gave bytes (update_all evp fuel size (drop size rest) vs))
        (ap (◌++ drop size rest) e
          ∙ append_assoc (joined us) (take size rest) (drop size rest)
          ∙ ap (joined us ++◌) (take-append-drop size rest))
        (h refl)

  next-Gave :
      (fuel size : ℕ) (rest : Bytes) (us : List Bytes) (o : Option (List Bytes))
      → Gave (joined us ++ take size rest) o
      → ((vs : List Bytes)
          → ltb (length rest) size ≡ false
          → Gave (joined vs ++ drop size rest) (update_all evp fuel size (drop size rest) vs))
      → Gave (joined us ++ rest) (next fuel size rest o)
  next-Gave fuel size rest us none h k = h
  next-Gave fuel size rest us (some vs) h k =
      behind-Gave fuel size rest us vs (ltb (length rest) size) h refl (k vs)

  update_all-Gave :
      (fuel size : ℕ) (rest : Bytes) (us : List Bytes)
      → length rest < fuel
      → 0 < size
      → Gave (joined us ++ rest) (update_all evp fuel size rest us)
  unfolding update_all
  update_all-Gave zero size rest us h k = absurd (omega arith)
  update_all-Gave (suc fuel) size rest us h k =
      next-Gave fuel size rest us (update_chunk evp (take size rest) us)
        (update_chunk-Gave (take size rest) us)
        (λ vs l.
          let m : size ≤ length rest = ground (arith, l) in
          update_all-Gave fuel size (drop size rest) vs (omega (arith, length-drop size rest)) k)

  finish-Gave :
      (bytes : Bytes) (o : Option (List Bytes))
      → Gave bytes o
      → finish evp o ≡ to_hex (doc.hash bytes)
  unfolding finish hex_or_empty
  finish-Gave bytes none h = absurd h
  finish-Gave bytes (some us) h = rw (doc.finals us, h) refl

  sha256_file_lem :
      (content : Bytes)
      → evp.has_context ≡ true
      → evp.init ≡ true
      → sha256_file evp (some content) ≡ to_hex (doc.hash content)
  unfolding sha256_file
  sha256_file_lem content c i =
      simp (c, i)
        (finish-Gave content (update_all evp (suc (length content)) 65536 content [])
          (update_all-Gave (suc (length content)) 65536 content [] (omega arith) (omega arith)))

  sha256_bytes_lem :
      (content : Bytes)
      → evp.has_context ≡ true
      → evp.init ≡ true
      → sha256_bytes evp content ≡ to_hex (doc.hash content)
  unfolding sha256_bytes hex_or_empty
  sha256_bytes_lem content c i = rw (c, i, doc.updates [] content, doc.finals (content ∷ [])) refl

  -- The digest of a file that can be opened is that of the bytes which can be read from it, up to the end
  -- or to an error, given at once; both are texts of two hexadecimal digits for each byte, and these
  -- bytes are the digest that the library documents.
  pub sha256_file-sha256_bytes :
      (content : Bytes)
      → evp.has_context ≡ true
      → evp.init ≡ true
      → (sha256_file evp (some content) ≡ sha256_bytes evp content)
        × (from_hex (sha256_bytes evp content) ≡ doc.hash content)
        × (length (sha256_bytes evp content) ≡ 2 * length (doc.hash content))
  sha256_file-sha256_bytes content c i =
      let of_bytes = sha256_bytes_lem content c i in
      let (e, l) = from_hex-to_hex (doc.hash content) (doc.bytes content) in
      (sha256_file_lem content c i ∙ sym of_bytes, ap from_hex of_bytes ∙ e, ap length of_bytes ∙ l)
