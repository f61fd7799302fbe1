-- ===== src/DngEmbed/Tests.antt =====
-- Tests of the options of src/dng_previewembed.cpp.
use autodngconverter.Base.{◌≡◌, refl, codes, value_of, isdigit, isspace}
use autodngconverter.DngEmbed.{
  parse_size, scan_width, scan_x, scan_height, scan_word, scan_signed, scan_digits, skip_spaces,
  skip_digits, word,
}

size : parse_size (codes "640x480") (1, 2) ≡ (640, 480)
unfolding parse_size scan_width scan_x scan_height scan_word scan_signed scan_digits skip_spaces
    skip_digits word value_of isdigit isspace
size = refl

-- A width without a height is kept.
width_alone : parse_size (codes "640") (1, 2) ≡ (640, 2)
unfolding parse_size scan_width scan_x scan_height scan_word scan_signed scan_digits skip_spaces
    skip_digits word value_of isdigit isspace
width_alone = refl
