-- ===== src/Exiftool/Dates.antt =====
-- The date that src/exiftool_daemon.cpp reads from a reply.
use autodngconverter.Base.{
  ℕ, suc, leb, length, ◌≡◌, refl, true, false, not, ◌||◌, Option, none, some, [], ◌∷◌, ◌++◌, arith,
  Bytes, codes, ◌==◌, if◌then◌else◌, any, if-Holds,
}
use autodngconverter.Util.Env.{lines}
use autodngconverter.Pipeline.Types.{ExifResult, DateSource}
use autodngconverter.Exiftool.{
  ExifToolDaemon, Pipes, skip_blanks, skip_leading, byte_is, parse_stamp, stamp_of_line, find_date,
  date_or_mtime, extract_date, send_command, date_command, safe_path,
}

-- A date and a time with four, two and two bytes, and eight.
pub record Stamp : Type 0 where
  pub y1 : ℕ
  pub y2 : ℕ
  pub y3 : ℕ
  pub y4 : ℕ
  pub m1 : ℕ
  pub m2 : ℕ
  pub d1 : ℕ
  pub d2 : ℕ
  pub t1 : ℕ
  pub t2 : ℕ
  pub t3 : ℕ
  pub t4 : ℕ
  pub t5 : ℕ
  pub t6 : ℕ
  pub t7 : ℕ
  pub t8 : ℕ

abbrev pub clock : Stamp → Bytes
clock s = s.t1 ∷ s.t2 ∷ s.t3 ∷ s.t4 ∷ s.t5 ∷ s.t6 ∷ s.t7 ∷ s.t8 ∷ []

-- The line of exiftool, and the date in the form of the database.
abbrev pub exif_line : Stamp → Bytes → Bytes
exif_line s rest =
    codes "DateTimeOriginal: "
    ++ (s.y1
        ∷ s.y2
        ∷ s.y3
        ∷ s.y4
        ∷ b':'
        ∷ s.m1
        ∷ s.m2
        ∷ b':'
        ∷ s.d1
        ∷ s.d2
        ∷ b' '
        ∷ (clock s ++ rest))

abbrev pub day : Stamp → Bytes
day s = s.y1 ∷ s.y2 ∷ s.y3 ∷ s.y4 ∷ b'-' ∷ s.m1 ∷ s.m2 ∷ b'-' ∷ s.d1 ∷ s.d2 ∷ []

at_least :
    (n : ℕ)
    → leb 19 (
        suc (
          suc (
            suc (
              suc (
                suc (
                  suc (
                    suc (
                      suc
                        (suc (suc (suc (suc (suc (suc (suc (suc (suc (suc (suc n)))))))))))))))))))
      ≡ true
at_least n = ground arith

-- The line that exiftool prints for a time stamp is read as its date and time, whatever stands behind
-- it, such as fractions of a second or a zone, if the year does not begin with a blank.
pub stamp_of_line-exif_line :
    (s : Stamp) (rest : Bytes)
    → ((s.y1 == b' ') || (s.y1 == b'\t')) ≡ false
    → stamp_of_line (exif_line s rest) ≡ some (day s, clock s)
unfolding stamp_of_line skip_leading skip_blanks parse_stamp byte_is
stamp_of_line-exif_line s rest h = rw (h, at_least (length rest)) refl

date_or_mtime-mtime :
    (m : ExifResult) (o : Option (Bytes × Bytes))
    → (date_or_mtime m o).source ≡ DateSource.mtime
    → ((date_or_mtime m o).date ≡ m.date) × ((date_or_mtime m o).time ≡ m.time)
unfolding date_or_mtime
date_or_mtime-mtime m none h = (refl, refl)
date_or_mtime-mtime m (some stamp) h = absurd (cc)

abbrev FallsBack : ExifResult → ExifResult × ExifToolDaemon → Type 0
FallsBack m (r, d) = r.source ≡ DateSource.mtime → (r.date ≡ m.date) × (r.time ≡ m.time)

-- A result that does not come from the data of the photograph has the date and the time of the file
-- system, whether the daemon is down, the path is refused, the exchange fails or the reply has no date.
pub extract_date-mtime :
    (p : Pipes) (m : ExifResult) (path : Bytes) (d : ExifToolDaemon)
    → let r = (extract_date p m path d).0 in
      r.source ≡ DateSource.mtime → (r.date ≡ m.date) × (r.time ≡ m.time)
unfolding extract_date
extract_date-mtime p m path d =
    let (response, d') = send_command p (date_command path) d in
    if-Holds (FallsBack m) (not d.running) (m, d)
      (if any (λ c. c == b'\n') (safe_path path)
        then (date_or_mtime m none, d)
        else (date_or_mtime m (find_date (lines [] response)), d'))
      (λ _. λ h. (refl, refl))
      (λ _.
        if-Holds (FallsBack m) (any (λ c. c == b'\n') (safe_path path)) (date_or_mtime m none, d)
          (date_or_mtime m (find_date (lines [] response)), d') (λ _. date_or_mtime-mtime m none)
          (λ _. date_or_mtime-mtime m (find_date (lines [] response))))
