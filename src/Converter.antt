-- ===== src/Converter.antt =====
-- src/converter.h and src/converter.cpp, as they are built for POSIX. The file system answers whether
-- a path is a regular file, and the shell gives the exit code of a command.
pub mod Shell
pub mod Engine
mod Tests
use autodngconverter.Base.{
  ℕ, ◌≡◌, refl, Bool, true, false, not, ◌&&◌, ◌||◌, Option, none, some, List, [], ◌∷◌, ◌++◌, arith,
  Bytes, codes, is_empty, bytes_eq, ℤ, pos, negsuc, leb_ℤ, leb, to_string, ◌==◌, if◌then◌else◌,
}
use autodngconverter.Config.{Config}
use autodngconverter.Pipeline.Types.{ConversionSettings}

-- What `waitpid(…, WNOHANG)` finds of the child in one round, and the clock of that round.
pub data Child : Type 0 where
  exited : ℕ → Child
  signalled : Child
  running : Child

pub record Observation : Type 0 where
  pub child : Child
  pub clock : ℕ

-- One round of the wait loop, given what the later rounds return.
unfoldable pub judge : ℕ → Child → ℕ → Option ℤ → Option ℤ
judge deadline (exited code) clock rest = some (pos code)
judge deadline signalled clock rest = some (negsuc 0)
judge deadline running clock rest = if leb deadline clock then some (negsuc 0) else rest

-- The wait loop of `run_timed`, behind a fork that succeeded; `none` is a loop that still waits.
unfoldable pub wait_child : ℕ → List Observation → Option ℤ
unfolding judge
wait_child deadline [] = none
wait_child deadline (o ∷ os) = judge deadline o.child o.clock (wait_child deadline os)

-- `shell_quote`
unfoldable pub quote_body : Bytes → Bytes
quote_body [] = []
quote_body (c ∷ s) =
    let rest = quote_body s in if c == b'\'' then b'\'' ∷ b'\\' ∷ b'\'' ∷ b'\'' ∷ rest else c ∷ rest

unfoldable pub shell_quote : Bytes → Bytes
unfolding quote_body
shell_quote s = b'\'' ∷ (quote_body s ++ (b'\'' ∷ []))

-- `ResolveEngineBinary`; the parameter tells which paths exist and are regular files.
unfoldable pub resolve_engine_binary : (Bytes → Bool) → Config → Bytes → Bytes
resolve_engine_binary is_file cfg name =
    if not (is_empty cfg.converter_engine_bin)
    then cfg.converter_engine_bin
    else if is_file (cfg.appdata_dir ++ codes "/engines/" ++ name)
    then cfg.appdata_dir ++ codes "/engines/" ++ name
    else if is_file (codes "/usr/local/bin/" ++ name)
    then codes "/usr/local/bin/" ++ name
    else name

-- `DnglabEngine` and `DnglabEmbedder`
pub record DnglabEngine : Type 0 where
  pub bin : Bytes

pub record DnglabEmbedder : Type 0 where
  pub bin : Bytes
  pub exif : Bytes

unfoldable pub engine_name : DnglabEngine → Bytes
engine_name e = codes "dnglab"

-- `sh` gives the exit code of a command.
unfoldable pub available : (Bytes → ℤ) → DnglabEngine → Bool
available sh e = leb_ℤ (pos 0) (sh (e.bin ++ codes " convert --help >/dev/null 2>&1"))

unfoldable pub safe_compression : Bytes → Bytes
unfolding bytes_eq
safe_compression c =
    if not (bytes_eq c (codes "lossless")) && not (bytes_eq c (codes "uncompressed"))
    then codes "lossless"
    else c

unfoldable pub convert_command : DnglabEngine → Bytes → Bytes → ConversionSettings → Bytes
convert_command e src dst s =
    e.bin
    ++ (codes " convert "
        ++ (shell_quote src
            ++ (b' '
                ∷ (shell_quote dst
                    ++ (codes " -c "
                        ++ (safe_compression s.compression ++ codes " --keep-mtime true -f"))))))

abbrev is_zero : ℤ → Bool
is_zero (pos n) = n == 0
is_zero (negsuc n) = false

unfoldable pub convert : (Bytes → ℤ) → DnglabEngine → Bytes → Bytes → ConversionSettings → Bool
convert sh e src dst s = is_zero (sh (convert_command e src dst s))

unfoldable pub embedder_available : (Bytes → ℤ) → DnglabEmbedder → Bool
embedder_available sh e = leb_ℤ (pos 0) (sh (e.bin ++ codes " reembed --help >/dev/null 2>&1"))

unfoldable pub embed_command : DnglabEmbedder → Bytes → Bytes → Bytes → Bytes
embed_command e dng jpeg seed =
    e.bin
    ++ (codes " reembed --dng "
        ++ (shell_quote dng
            ++ (codes " --preview "
                ++ (shell_quote jpeg
                    ++ (codes " --output "
                        ++ (shell_quote dng ++ (codes " --seed " ++ shell_quote seed)))))))

unfoldable pub embed : (Bytes → ℤ) → DnglabEmbedder → Bytes → Bytes → Bytes → Bool
embed sh e dng jpeg seed = is_zero (sh (embed_command e dng jpeg seed))

unfoldable pub set_orientation : (Bytes → ℤ) → DnglabEmbedder → Bytes → ℕ → Bool
set_orientation sh e dng orientation = is_zero (
    sh (
      e.exif
      ++ (codes " -Orientation="
          ++ (to_string orientation
              ++ (codes " -n -overwrite_original_in_place " ++ shell_quote dng)))))

abbrev configured_name : Config → Bytes
configured_name cfg = if is_empty cfg.converter_engine then codes "dnglab" else cfg.converter_engine

-- Both branches of the factory make a `DnglabEngine`.
unfoldable pub make_converter : (Bytes → Bool) → Config → DnglabEngine
unfolding bytes_eq
make_converter is_file cfg =
    let bin = resolve_engine_binary is_file cfg (configured_name cfg) in
    if bytes_eq (configured_name cfg) (codes "dnglab")
    then record { bin = bin }
    else record { bin = bin }

unfoldable pub make_embedder : (Bytes → Bool) → Config → DnglabEmbedder
make_embedder is_file cfg = record {
  bin = resolve_engine_binary is_file cfg (configured_name cfg);
  exif = cfg.exiftool_bin;
}
