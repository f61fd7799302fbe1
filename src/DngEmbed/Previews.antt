-- ===== src/DngEmbed/Previews.antt =====
-- What src/dng_previewembed.cpp gives to the library to write.
use autodngconverter.Base.{
  ℕ, ◌<◌, ◌≡◌, ◌≢◌, refl, ◌||◌, Option, List, [], ◌∷◌, arith, All, Bytes, ◌==◌, if-Holds,
}
use autodngconverter.DngEmbed.{
  Size, Options, default_options, parse_options, Preview, primary_size, previews, Result, done,
  dng_exception, other_exception, Library, Written, exit_code, write, embed, main,
}

-- A preview with an area.
abbrev pub HasArea : Preview → Type 0
HasArea p = (0 < p.width) × (0 < p.height)

abbrev IsSize : Size → Type 0
IsSize (w, h) = (0 < w) × (0 < h)

-- An end of the program: without a call of the writer it failed; otherwise there was one call, for the
-- file that was named, of previews that have an area.
abbrev pub HasWritten : Bytes → ℕ × List Written → Type 0
HasWritten dng (code, []) = code ≢ 0
HasWritten dng (code, w ∷ []) = (w.path ≡ dng) × All HasArea w.list
HasWritten dng (code, v ∷ w ∷ ws) = ⊥

primary_size-IsSize : (size : Size) → IsSize (primary_size size)
unfolding primary_size
primary_size-IsSize (w, h) =
    if-Holds IsSize (w == 0 || h == 0) _ _ (λ _. (omega arith, omega arith))
      (λ e. (ground (arith, e), ground (arith, e)))

previews-HasArea : (o : Options) → All HasArea (previews o)
unfolding previews
previews-HasArea o = (
  primary_size-IsSize o.preview,
  if-Holds (All HasArea) o.adobe_compatible _ _ (λ _. ((omega arith, omega arith), tt)) (λ _. tt),
)

write-HasWritten :
    (lib : Library) (dng : Bytes) (o : Options) (r : Result) → HasWritten dng (write lib dng o r)
unfolding write exit_code
write-HasWritten lib dng o done = (refl, previews-HasArea o)
write-HasWritten lib dng o dng_exception = omega arith
write-HasWritten lib dng o other_exception = omega arith

embed-HasWritten :
    (lib : Library) (dng : Bytes) (o : Options) (r : Result) → HasWritten dng (embed lib dng o r)
unfolding embed exit_code
embed-HasWritten lib dng o done =
    if-Holds (HasWritten dng) lib.is_valid _ _ (λ _. write-HasWritten lib dng o lib.read_jpeg)
      (λ _. omega arith)
embed-HasWritten lib dng o dng_exception = omega arith
embed-HasWritten lib dng o other_exception = omega arith

-- Whatever options and sizes are given, the program fails without a call of the writer, or it calls it once,
-- for the file that was named, with previews whose width and height are positive.
pub main-HasWritten :
    (lib : Library) (mode : Option Bytes) (dng jpeg : Bytes) (args : List Bytes)
    → HasWritten dng (main lib mode (dng ∷ jpeg ∷ args))
unfolding main
main-HasWritten lib mode dng jpeg args =
    embed-HasWritten lib dng (parse_options args (default_options mode)) lib.read_dng
