-- ===== src/DngEmbed.antt =====
-- src/dng_previewembed.cpp, the tool on the DNG library: its options, its list of previews, and its exit
-- codes. What the library does in a step is given: it succeeds, or it throws.
pub mod Previews
mod Tests
use autodngconverter.Base.{
  ℕ, zero, suc, ◌-◌, ◌%◌, ◌^◌, Bool, true, false, ◌||◌, Option, none, some, List, [], ◌∷◌, ◌++◌,
  Bytes, codes, bytes_eq, isspace, isdigit, value_of, ◌==◌, if◌then◌else◌,
}

-- The text behind the leading spaces, and behind the leading digits.
unfoldable pub skip_spaces : Bytes → Bytes
skip_spaces [] = []
skip_spaces (c ∷ s) = let rest = skip_spaces s in if isspace c then rest else c ∷ s

unfoldable pub skip_digits : Bytes → Bytes
skip_digits [] = []
skip_digits (c ∷ s) = let rest = skip_digits s in if isdigit c then rest else c ∷ s

-- A value of 32 bits, which a minus sign negates.
unfoldable pub word : Bool → ℕ → ℕ
word false n = n % 2 ^ 32
word true n = (2 ^ 32 - n % 2 ^ 32) % 2 ^ 32

unfoldable pub scan_digits : Bool → Bytes → Option (ℕ × Bytes)
scan_digits neg [] = none
scan_digits neg (c ∷ s) =
    if isdigit c then some (word neg (value_of 0 (c ∷ s)), skip_digits (c ∷ s)) else none

unfoldable pub scan_signed : Bytes → Option (ℕ × Bytes)
scan_signed [] = none
scan_signed (c ∷ s) =
    if c == b'-'
    then scan_digits true s
    else if c == b'+'
    then scan_digits false s
    else scan_digits false (c ∷ s)

-- The conversion "%u" of `sscanf`, for texts below 2^64: the value, and what is left.
unfoldable pub scan_word : Bytes → Option (ℕ × Bytes)
scan_word s = scan_signed (skip_spaces s)

abbrev pub Size : Type 0
Size = ℕ × ℕ

unfoldable pub scan_height : ℕ → ℕ → Option (ℕ × Bytes) → Size
scan_height w h none = (w, h)
scan_height w h (some (k, rest)) = (w, k)

unfoldable pub scan_x : ℕ → ℕ → Bytes → Size
scan_x w h [] = (w, h)
scan_x w h (c ∷ s) = if c == b'x' then scan_height w h (scan_word s) else (w, h)

unfoldable pub scan_width : Size → Option (ℕ × Bytes) → Size
scan_width size none = size
scan_width (w, h) (some (k, rest)) = scan_x k h rest

-- "%ux%u": a width that is read is kept also where no height follows; the result is not looked at, and
-- the second attempt reads the same.
unfoldable pub parse_size : Bytes → Size → Size
parse_size s size = scan_width size (scan_word s)

pub record Options : Type 0 where
  pub preview : Size
  pub thumbnail : Size
  pub preserve_hierarchy : Bool
  pub adobe_compatible : Bool
  pub verbose : Bool

-- The defaults, with the mode of the environment.
unfoldable pub default_options : Option Bytes → Options
default_options none = record {
  preview = (0, 0);
  thumbnail = (256, 192);
  preserve_hierarchy = false;
  adobe_compatible = false;
  verbose = false;
}
default_options (some mode) = record {
  preview = (0, 0);
  thumbnail = (256, 192);
  preserve_hierarchy = bytes_eq mode (codes "preserve");
  adobe_compatible = bytes_eq mode (codes "adobe");
  verbose = false;
}

-- An option without a value.
unfoldable pub set_flag : Bytes → Options → Options
set_flag arg o =
    if bytes_eq arg (codes "--preserve-hierarchy")
    then record o { preserve_hierarchy = true }
    else if bytes_eq arg (codes "--adobe-compatible")
    then record o { adobe_compatible = true }
    else if bytes_eq arg (codes "--verbose")
    then record o { verbose = true }
    else o

-- The loop over the arguments: a size takes the next argument as its value, and as the last one it is
-- ignored; what is not known is ignored too.
unfoldable pub parse_options : List Bytes → Options → Options
parse_options [] o = o
parse_options (a ∷ []) o = set_flag a o
parse_options (a ∷ b ∷ args) o = elim (bytes_eq a (codes "--preview-size")) [
  | true ↦ parse_options args (record o { preview = parse_size b o.preview })
  | false ↦ elim (bytes_eq a (codes "--thumbnail-size")) [
    | true ↦ parse_options args (record o { thumbnail = parse_size b o.thumbnail })
    | false ↦ parse_options (b ∷ args) (set_flag a o)
  ]
]

pub record Preview : Type 0 where
  pub name : Bytes
  pub width : ℕ
  pub height : ℕ
  -- Whether it has the bytes of the picture.
  pub has_data : Bool

unfoldable pub primary_size : Size → Size
primary_size (w, h) = if w == 0 || h == 0 then (4000, 3000) else (w, h)

unfoldable pub previews : Options → List Preview
previews o =
    let (w, h) = primary_size o.preview in
    record { name = codes "JpgFromRaw"; width = w; height = h; has_data = true }
    ∷ (if o.adobe_compatible
        then (record { name = codes "PreviewImage"; width = 1024; height = 768; has_data = false }
            ∷ [])
        else [])

-- A step of the library.
pub data Result : Type 0 where
  done : Result
  dng_exception : Result
  other_exception : Result

-- The reading of the DNG file and its validity, the reading of the picture, and the writing.
pub record Library : Type 0 where
  pub read_dng : Result
  pub is_valid : Bool
  pub read_jpeg : Result
  pub write_dng : Result

-- The step that opens the file and calls `WriteDNG`: the path, the previews, and whether the structure is kept.
pub record Written : Type 0 where
  pub path : Bytes
  pub list : List Preview
  pub keep_structure : Bool

unfoldable pub exit_code : Result → ℕ
exit_code done = 0
exit_code dng_exception = 3
exit_code other_exception = 4

unfoldable pub write : Library → Bytes → Options → Result → ℕ × List Written
write lib dng o done = (
  exit_code lib.write_dng,
  record {
    path = dng;
    list = previews o;
    keep_structure = o.preserve_hierarchy || o.adobe_compatible;
  }
      ∷ [],
)
write lib dng o failure = (exit_code failure, [])

unfoldable pub embed : Library → Bytes → Options → Result → ℕ × List Written
embed lib dng o done = if lib.is_valid then write lib dng o lib.read_jpeg else (2, [])
embed lib dng o failure = (exit_code failure, [])

-- The arguments behind the name of the program, and the mode of the environment.
unfoldable pub main : Library → Option Bytes → List Bytes → ℕ × List Written
main lib mode (dng ∷ jpeg ∷ args) =
    embed lib dng (parse_options args (default_options mode)) lib.read_dng
main lib mode _ = (1, [])
