-- ===== src/Converter/Shell.antt =====
-- The commands of src/converter.cpp, read back as a POSIX shell reads them.
use autodngconverter.Base.{
  ℕ, ◌≡◌, ◌≢◌, refl, ap, ◌∙◌, ◌⊎◌, inl, inr, Bool, true, false, ◌&&◌, ◌||◌, Option, none, some,
  List, [], ◌∷◌, ◌++◌, append_assoc, append-nil, arith, Bytes, codes, bytes_eq_iff, leb, ◌==◌, All,
}
use autodngconverter.Pipeline.Types.{ConversionSettings}
use autodngconverter.Converter.{
  quote_body, shell_quote, DnglabEngine, convert_command, safe_compression,
}

-- A character that stands for itself outside of quotes.
abbrev is_literal : ℕ → Bool
is_literal c =
    (leb b'a' c && leb c b'z')
    || (leb b'A' c && leb c b'Z')
    || (leb b'0' c && leb c b'9')
    || (c == b'/')
    || (c == b'.')
    || (c == b'-')
    || (c == b'_')

-- The shell's reader: the words of a simple command. `none` is a text that is no such command: an
-- open quote, or a character with another meaning. The flags tell whether a word has begun and
-- whether the reader is between single quotes; a backslash quotes the next character.
pub data Mode : Type 0 where
  between bare quoted escaped : Mode

abbrev close : Mode → Bytes → List Bytes → Option (List Bytes)
close between w ws = some ws
close bare w ws = some (ws ++ w ∷ [])
close _ w ws = none

pub read : Mode → Bytes → List Bytes → Bytes → Option (List Bytes)
read mode w ws [] = close mode w ws
read quoted w ws (c ∷ s) = elim (c == b'\'') [
  | true ↦ read bare w ws s
  | false ↦ read quoted (w ++ c ∷ []) ws s
]
read escaped w ws (c ∷ s) = read bare (w ++ c ∷ []) ws s
read between w ws (c ∷ s) = elim (c == b' ') [
  | true ↦ read between w ws s
  | false ↦ elim (c == b'\'') [
    | true ↦ read quoted [] ws s
    | false ↦ elim (is_literal c) [ true ↦ read bare (c ∷ []) ws s | false ↦ none ]
  ]
]
read bare w ws (c ∷ s) = elim (c == b' ') [
  | true ↦ read between [] (ws ++ w ∷ []) s
  | false ↦ elim (c == b'\'') [
    | true ↦ read quoted w ws s
    | false ↦ elim (c == b'\\') [
      | true ↦ read escaped w ws s
      | false ↦ elim (is_literal c) [ true ↦ read bare (w ++ c ∷ []) ws s | false ↦ none ]
    ]
  ]
]

pub words : Bytes → Option (List Bytes)
words s = read between [] [] s

read-quote_body :
    (s w rest : Bytes) (ws : List Bytes)
    → read quoted w ws (quote_body s ++ rest) ≡ read quoted (w ++ s) ws rest
unfolding quote_body read
read-quote_body [] w rest ws = rw append-nil
read-quote_body (c ∷ s) w rest ws = ground (
  arith,
  read-quote_body s (w ++ b'\'' ∷ []) rest ws,
  read-quote_body s (w ++ c ∷ []) rest ws,
  append_assoc w (c ∷ []) s,
  append_assoc w (b'\'' ∷ []) s,
)

-- A quoted text is read as one word, whatever bytes it holds.
read-shell_quote :
    (s rest : Bytes) (ws : List Bytes)
    → read between [] ws (shell_quote s ++ rest) ≡ read bare s ws rest
unfolding shell_quote read
read-shell_quote s rest ws =
    ap (read quoted [] ws) (append_assoc (quote_body s) (b'\'' ∷ []) rest)
    ∙ read-quote_body s [] (b'\'' ∷ rest) ws

-- A text of letters, digits and `/.-_`, and not the empty one: the shell reads it as one word.
abbrev pub AllLiteral : Bytes → Type 0
AllLiteral = All (λ c. is_literal c ≡ true)

abbrev pub IsWord : Bytes → Type 0
IsWord s = (s ≢ []) × AllLiteral s

read-AllLiteral :
    (t w rest : Bytes) (ws : List Bytes)
    → AllLiteral t
    → read bare w ws (t ++ rest) ≡ read bare (w ++ t) ws rest
unfolding read
read-AllLiteral [] w rest ws h = rw append-nil
read-AllLiteral (c ∷ t) w rest ws (h, hs) =
    ground (arith, read-AllLiteral t (w ++ c ∷ []) rest ws hs, append_assoc w (c ∷ []) t)

read-IsWord :
    (t rest : Bytes) (ws : List Bytes)
    → IsWord t
    → read between [] ws (t ++ rest) ≡ read bare t ws rest
unfolding read
read-IsWord [] rest ws h = absurd (h.0 refl)
read-IsWord (c ∷ t) rest ws (_, (h, hs)) = ground (arith, read-AllLiteral t (c ∷ []) rest ws hs)

-- Only the two compressions that dnglab knows are passed on.
pub safe_compression_lem :
    (c : Bytes)
    → (safe_compression c ≡ codes "lossless") ⊎ (safe_compression c ≡ codes "uncompressed")
unfolding safe_compression
safe_compression_lem c =
    ground (arith, bytes_eq_iff c (codes "lossless"), bytes_eq_iff c (codes "uncompressed"))

read_options :
    (dst : Bytes) (ws : List Bytes) (c : Bytes)
    → read bare dst ws (codes " -c " ++ (safe_compression c ++ codes " --keep-mtime true -f"))
      ≡ some (
          ((((ws ++ dst ∷ []) ++ codes "-c" ∷ []) ++ safe_compression c ∷ [])
            ++ codes "--keep-mtime" ∷ [])
          ++ codes "true" ∷ []
          ++ codes "-f" ∷ [])
read_options dst ws c = elim (safe_compression_lem c) [
  | inl e ↦ rw e (unfold read in refl)
  | inr e ↦ rw e (unfold read in refl)
]

-- The shell reads the conversion command as dnglab's arguments, with the source and the target as one
-- word each, whatever bytes they hold, if the path of the binary is a plain word.
pub words-convert_command :
    (e : DnglabEngine) (src dst : Bytes) (s : ConversionSettings)
    → IsWord e.bin
    → words (convert_command e src dst s)
      ≡ some (
          e.bin
          ∷ codes "convert"
          ∷ src
          ∷ dst
          ∷ codes "-c"
          ∷ safe_compression s.compression
          ∷ codes "--keep-mtime"
          ∷ codes "true"
          ∷ codes "-f"
          ∷ [])
unfolding words convert_command read
words-convert_command e src dst s h =
    let tail = codes " -c " ++ (safe_compression s.compression ++ codes " --keep-mtime true -f") in
    let from_dst = shell_quote dst ++ tail in
    let start = e.bin ∷ codes "convert" ∷ [] in
    read-IsWord e.bin (codes " convert " ++ (shell_quote src ++ (b' ' ∷ from_dst))) [] h
    ∙ read-shell_quote src (b' ' ∷ from_dst) start
    ∙ read-shell_quote dst tail (start ++ src ∷ [])
    ∙ read_options dst (start ++ src ∷ []) s.compression
