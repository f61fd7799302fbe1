-- ===== src/PreviewEmbed/Tests.antt =====
-- Tests of src/tools/dng_previewembed.cpp, and the theorems at concrete files.
use autodngconverter.Base.{
  ℕ, zero, suc, ◌≡◌, refl, true, List, [], ◌∷◌, ◌++◌, Bytes, codes, take, some,
}
use autodngconverter.Pipeline.Thumbnail.{end_marker}
use autodngconverter.PreviewEmbed.{Files, Disk, embed, replace, find_jpeg, main}
use autodngconverter.PreviewEmbed.Splice.{Spliced, embed-Spliced}
use autodngconverter.PreviewEmbed.Run.{Ends, main-Ends}
use autodngconverter.PreviewEmbed.Twice.{embed-embed}

abbrev zeros : ℕ → Bytes
zeros zero = []
zeros (suc n) = 0 ∷ zeros n

abbrev picture : Bytes
picture = 255 ∷ 216 ∷ (zeros 60 ++ (255 ∷ 217 ∷ []))

abbrev dng : Bytes
dng = 7 ∷ 255 ∷ 216 ∷ 1 ∷ 255 ∷ 217 ∷ 9 ∷ []

replaced : embed dng picture ≡ 7 ∷ (picture ++ (9 ∷ []))
unfolding embed replace find_jpeg end_marker
replaced = refl

-- Without an end marker the rest of the file is lost.
no_end : embed (7 ∷ 255 ∷ 216 ∷ 1 ∷ 9 ∷ []) picture ≡ 7 ∷ picture
unfolding embed replace find_jpeg end_marker
no_end = refl

embed-Spliced_example : Spliced dng picture (embed dng picture)
embed-Spliced_example = embed-Spliced dng picture

abbrev files : Files
files = (codes "/a.dng", dng) ∷ (codes "/p.jpg", picture) ∷ []

abbrev args : List Bytes
args = codes "/a.dng" ∷ codes "/p.jpg" ∷ codes "1024" ∷ codes "768" ∷ codes "92" ∷ []

-- A disk that is full after the first bytes.
abbrev disk : Disk
disk = record { can_stat = λ path. true; written = λ path bytes. some (take 4 bytes) }

main-Ends_example : Ends disk args files (main disk args files)
main-Ends_example = main-Ends disk args files

embed-embed_example : embed (embed dng picture) picture ≡ embed dng picture
unfolding end_marker
embed-embed_example = embed-embed dng picture (zeros 60 ++ (255 ∷ 217 ∷ []), refl, refl)
