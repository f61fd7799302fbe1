-- ===== src/Converter/Tests.antt =====
-- Tests of src/converter.cpp, and the theorems at concrete inputs.
use autodngconverter.Base.{◌≡◌, refl, some, [], ◌∷◌, codes, pos}
use autodngconverter.Config.{Config, default_config}
use autodngconverter.Converter.{
  exited, running, Observation, wait_child, judge, DnglabEngine, convert_command, safe_compression,
}
use autodngconverter.Pipeline.Types.{default_settings}
use autodngconverter.Converter.Shell.{words, words-convert_command}

abbrev busy : Observation
busy = record { child = running; clock = 3 }

waits_for_exit : wait_child 10 (busy ∷ record { child = exited 0; clock = 4 } ∷ []) ≡ some (pos 0)
unfolding wait_child judge
waits_for_exit = refl

abbrev adobedng : Config
adobedng = record default_config { converter_engine = codes "adobedng" }

abbrev dnglab : DnglabEngine
dnglab = record { bin = codes "dnglab" }

words-convert_command_example :
    words (convert_command dnglab (codes "/a b'.nef") (codes "/out/c.dng") default_settings)
    ≡ some (
        codes "dnglab"
        ∷ codes "convert"
        ∷ codes "/a b'.nef"
        ∷ codes "/out/c.dng"
        ∷ codes "-c"
        ∷ safe_compression (codes "lossless")
        ∷ codes "--keep-mtime"
        ∷ codes "true"
        ∷ codes "-f"
        ∷ [])
words-convert_command_example =
    words-convert_command dnglab (codes "/a b'.nef") (codes "/out/c.dng") default_settings
      ((λ e. absurd (cc)), (refl, (refl, (refl, (refl, (refl, (refl, tt)))))))
