-- ===== src/Pipeline/Schema.antt =====
-- `build_folder_schema` of src/pipeline.cpp.
use autodngconverter.Base.{
  ℕ, ◌≡◌, refl, true, false, [], ◌∷◌, ◌++◌, Bytes, codes, length, take, drop, leb, ◌==◌,
  if◌then◌else◌,
}

-- `substr(i, n)`, where `i` is not behind the end.
unfoldable pub substr : Bytes → ℕ → ℕ → Bytes
substr s i n = take n (drop i s)

-- The locals `y`, `m` and `d`.
pub record DateParts : Type 0 where
  pub y : Bytes
  pub m : Bytes
  pub d : Bytes

unfoldable pub date_parts : Bytes → DateParts
unfolding substr
date_parts date =
    if leb 10 (length date)
    then record { y = substr date 0 4; m = substr date 5 2; d = substr date 8 2 }
    else record { y = []; m = []; d = [] }

-- What `%c` stands for.
unfoldable pub directive : DateParts → ℕ → Bytes
directive p c =
    if c == b'Y' then p.y else if c == b'm' then p.m else if c == b'd' then p.d else c ∷ []

unfoldable pub expand : DateParts → Bytes → Bytes
unfolding directive
expand p [] = []
expand p (t ∷ []) = t ∷ []
expand p (t ∷ c ∷ r) = elim (t == b'%') [
  | true ↦ directive p c ++ expand p r
  | false ↦ t ∷ expand p (c ∷ r)
]

or_default_template : Bytes → Bytes
or_default_template [] = codes "%Y/%m"
or_default_template (c ∷ t) = c ∷ t

unfoldable pub build_folder_schema : Bytes → Bytes → Bytes
unfolding expand date_parts or_default_template
build_folder_schema template date = expand (date_parts date) (or_default_template template)

july : build_folder_schema (codes "%Y/%m") (codes "2026-07-05") ≡ codes "2026/07"
unfolding build_folder_schema
july = refl
