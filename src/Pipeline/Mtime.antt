-- ===== src/Pipeline/Mtime.antt =====
-- `file_mtime_tm` of src/util.cpp and `exif_from_mtime` of src/pipeline.cpp. `stat` gives the time of a
-- file, or nothing, and `localtime` gives the broken-down time.
use autodngconverter.Base.{
  ℕ, ◌+◌, ◌*◌, ◌/◌, ◌%◌, ◌<◌, ◌≡◌, refl, ap, ◌∙◌, true, Option, none, some, [], ◌∷◌, ◌++◌, arith,
  value_of-digit, Bytes, take, drop, ltb, to_string, value_of, if◌then◌else◌,
}
use autodngconverter.Pipeline.Types.{ExifResult, DateSource}
use autodngconverter.Pipeline.Schema.{date_parts, substr}

-- The year, and the month from 1 on, as `put_time` prints them.
pub record Tm : Type 0 where
  pub year : ℕ
  pub month : ℕ
  pub day : ℕ
  pub hour : ℕ
  pub minute : ℕ
  pub second : ℕ

unfoldable pub file_mtime_tm : Option ℕ → (ℕ → Tm) → Option Tm
file_mtime_tm none localtime = none
file_mtime_tm (some t) localtime = some (localtime t)

-- Two digits, with a zero in front.
unfoldable pub two : ℕ → Bytes
two n = (b'0' + n / 10 % 10) ∷ (b'0' + n % 10) ∷ []

-- A year of four digits at least.
unfoldable pub year_text : ℕ → Bytes
year_text y = if ltb y 10000 then two (y / 100) ++ two (y % 100) else to_string y

-- "%Y-%m-%d %H:%M:%S"
unfoldable pub put_time : Tm → Bytes
put_time tm =
    year_text tm.year
    ++ (b'-'
        ∷ (two tm.month
            ++ (b'-'
                ∷ (two tm.day
                    ++ (b' '
                        ∷ (two tm.hour ++ (b':' ∷ (two tm.minute ++ (b':' ∷ two tm.second)))))))))

unfoldable pub exif_from_mtime : Option ℕ → (ℕ → Tm) → ExifResult
exif_from_mtime stat localtime = elim (file_mtime_tm stat localtime) [
  | none ↦ record { date = []; time = []; source = DateSource.mtime }
  | some tm ↦ (record {
    date = take 10 (put_time tm);
    time = take 8 (drop 11 (put_time tm));
    source = DateSource.mtime;
  })
]

value_of-two : (m n : ℕ) (s : Bytes) → n < 100 → value_of m (two n ++ s) ≡ value_of (m * 100 + n) s
unfolding two
value_of-two m n s h =
    value_of-digit m (n / 10 % 10) ((b'0' + n % 10) ∷ s) (omega arith)
    ∙ value_of-digit (m * 10 + n / 10 % 10) (n % 10) s (omega arith)
    ∙ ap (λ k. value_of k s) {y = m * 100 + n} (omega arith)

value_nil : {m n : ℕ} → m ≡ n → value_of m [] ≡ n
unfolding value_of
value_nil e = e

value_two : (n : ℕ) → n < 100 → value_of 0 (two n) ≡ n
unfolding two value_of
value_two n h =
    value_of-digit 0 (n / 10 % 10) ((b'0' + n % 10) ∷ []) (omega arith)
    ∙ value_of-digit (0 * 10 + n / 10 % 10) (n % 10) [] (omega arith)
    ∙ (omega arith)

day_text : Tm → Bytes
day_text tm =
    two (tm.year / 100) ++ (two (tm.year % 100) ++ (b'-' ∷ (two tm.month ++ (b'-' ∷ two tm.day))))

take-put_time : (tm : Tm) → tm.year < 10000 → take 10 (put_time tm) ≡ day_text tm
unfolding put_time year_text two day_text
take-put_time tm h = rw (small) refl
  where
    small : ltb tm.year 10000 ≡ true
    small = ground (arith, h)

-- The parts are the digits.
abbrev HasDay : Tm → Bytes → Type 0
HasDay tm date =
    (value_of 0 (date_parts date).y ≡ tm.year)
    × (value_of 0 (date_parts date).m ≡ tm.month)
    × (value_of 0 (date_parts date).d ≡ tm.day)

day_text-HasDay :
    (tm : Tm) → tm.year < 10000 → tm.month < 100 → tm.day < 100 → HasDay tm (day_text tm)
unfolding day_text date_parts substr two
day_text-HasDay tm h k l = (
  value_of-two 0 (tm.year / 100) (two (tm.year % 100)) (omega arith)
      ∙ value_of-two (0 * 100 + tm.year / 100) (tm.year % 100) [] (omega arith)
      ∙ value_nil (omega arith),
  value_two tm.month k,
  value_two tm.day l,
)

-- The folder of a file without a date of its own is that of its modification time: the year, the month
-- and the day that `build_folder_schema` takes from the date of `exif_from_mtime` are those that
-- `localtime` gave, for a year below 10000.
pub date_parts-exif_from_mtime :
    (t : ℕ) (localtime : ℕ → Tm)
    → (localtime t).year < 10000
    → (localtime t).month < 100
    → (localtime t).day < 100
    → (value_of 0 (date_parts (exif_from_mtime (some t) localtime).date).y ≡ (localtime t).year)
      × (value_of 0 (date_parts (exif_from_mtime (some t) localtime).date).m ≡ (localtime t).month)
      × (value_of 0 (date_parts (exif_from_mtime (some t) localtime).date).d ≡ (localtime t).day)
unfolding exif_from_mtime file_mtime_tm
date_parts-exif_from_mtime t localtime h k l =
    rw (take-put_time (localtime t) h) (day_text-HasDay (localtime t) h k l)
