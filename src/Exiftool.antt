-- ===== src/Exiftool.antt =====
-- src/exiftool_daemon.h and src/exiftool_daemon.cpp, as they are built for POSIX, behind a start that
-- has made the pipes.
pub mod Protocol
pub mod Dates
pub mod Start
mod Tests
use autodngconverter.Base.{
  ℕ, ◌-◌, Bool, true, false, not, ◌&&◌, ◌||◌, Option, none, some, List, [], ◌∷◌, ◌++◌, Bytes, codes,
  bytes_eq, is_empty, starts_with, any, length, take, drop, leb, ◌==◌, if◌then◌else◌,
}
use autodngconverter.Pipeline.Types.{ExifResult, DateSource}
use autodngconverter.Util.Env.{lines}

-- Which of the descriptors and the child are there, and the flag.
pub record ExifToolDaemon : Type 0 where
  pub running : Bool
  pub stdin_open : Bool
  pub stdout_open : Bool
  pub child : Bool

-- The pipes: whether a command is written whole, and what comes behind it up to the end of the stream.
pub record Pipes : Type 0 where
  pub write : Bytes → Bool
  pub replies : Bytes → Bytes

-- `fgets` until it fails, with room for so many bytes more in the buffer that holds `cur`: a piece ends
-- behind a newline, or when the 1023 bytes of the buffer are full.
unfoldable pub pieces : ℕ → Bytes → Bytes → List Bytes
pieces room cur [] = if is_empty cur then [] else cur ∷ []
pieces room cur (c ∷ s) = elim (c == b'\n' || room == 1) [
  | true ↦ (cur ++ (c ∷ [])) ∷ pieces 1023 [] s
  | false ↦ pieces (room - 1) (cur ++ (c ∷ [])) s
]

-- A text in a buffer ends at its first NUL.
unfoldable pub c_string : Bytes → Bytes
c_string [] = []
c_string (c ∷ s) = let rest = c_string s in if c == 0 then [] else c ∷ rest

-- One newline at the end of the text goes.
unfoldable pub chop : Bytes → Bytes
chop [] = []
chop (c ∷ []) = if c == b'\n' then [] else c ∷ []
chop (c ∷ d ∷ s) = c ∷ chop (d ∷ s)

unfoldable pub join : Bytes → Bytes → Bytes
join result s = if is_empty result then s else result ++ (b'\n' ∷ s)

-- The loop over the reply; `none` is an end before the sentinel.
unfoldable pub collect : Bytes → List Bytes → Option Bytes
unfolding chop join bytes_eq c_string
collect result [] = none
collect result (l ∷ ls) =
    let rest = collect (join result (chop (c_string l))) ls in
    if bytes_eq (chop (c_string l)) (codes "{ready}") then some result else rest

unfoldable pub judge_reply : ExifToolDaemon → Option Bytes → Bytes × ExifToolDaemon
judge_reply d none = ([], record d { running = false })
judge_reply d (some result) = (result, d)

unfoldable pub send_command : Pipes → Bytes → ExifToolDaemon → Bytes × ExifToolDaemon
unfolding collect judge_reply pieces
send_command p cmd d =
    if not d.running || not d.child || not d.stdout_open
    then ([], d)
    else if p.write cmd
    then judge_reply d (collect [] (pieces 1023 [] (p.replies cmd)))
    else ([], record d { running = false })

-- A path that begins with a dash would be read as an option.
unfoldable pub safe_path : Bytes → Bytes
safe_path [] = []
safe_path (c ∷ s) = if c == b'-' then b'.' ∷ b'/' ∷ c ∷ s else c ∷ s

unfoldable pub date_command : Bytes → Bytes
unfolding safe_path
date_command path =
    codes "-S\n-DateTimeOriginal\n-FileModifyDate\n" ++ (safe_path path ++ codes "\n-execute\n")

unfoldable pub skip_blanks : Bytes → Bytes
skip_blanks [] = []
skip_blanks (c ∷ s) = let rest = skip_blanks s in if c == b' ' || c == b'\t' then rest else c ∷ s

-- `find_first_not_of`: a text of blanks alone stays.
unfoldable pub skip_leading : Bytes → Bytes
unfolding skip_blanks
skip_leading s = if is_empty (skip_blanks s) then s else skip_blanks s

unfoldable pub byte_is : ℕ → ℕ → Bytes → Bool
byte_is i b s = has (drop i s)
  where
    has : Bytes → Bool
    has [] = false
    has (c ∷ s) = c == b

unfoldable pub parse_stamp : Bytes → Option (Bytes × Bytes)
unfolding byte_is
parse_stamp val =
    if leb 19 (length val) && byte_is 4 b':' val && byte_is 7 b':' val && byte_is 10 b' ' val
    then some (
      take 4 val ++ (b'-' ∷ (take 2 (drop 5 val) ++ (b'-' ∷ take 2 (drop 8 val)))),
      take 8 (drop 11 val),
    )
    else none

unfoldable pub stamp_of_line : Bytes → Option (Bytes × Bytes)
unfolding parse_stamp skip_leading starts_with
stamp_of_line line =
    if starts_with (codes "DateTimeOriginal:") line
    then parse_stamp (skip_leading (drop 17 line))
    else none

-- The loop over the lines of the response ends at the first one with a date.
unfoldable pub find_date : List Bytes → Option (Bytes × Bytes)
unfolding stamp_of_line
find_date [] = none
find_date (line ∷ ls) =
    let rest = find_date ls in elim (stamp_of_line line) [ some stamp ↦ some stamp | none ↦ rest ]

-- The result of `exif_from_mtime` is given.
unfoldable pub date_or_mtime : ExifResult → Option (Bytes × Bytes) → ExifResult
date_or_mtime m none = record { date = m.date; time = m.time; source = DateSource.mtime }
date_or_mtime m (some (date, time)) = record { date = date; time = time; source = DateSource.exif }

unfoldable pub extract_date :
    Pipes → ExifResult → Bytes → ExifToolDaemon → ExifResult × ExifToolDaemon
unfolding send_command find_date date_or_mtime lines date_command
extract_date p m path d =
    if not d.running
    then (m, d)
    else if any (λ c. c == b'\n') (safe_path path)
    then (date_or_mtime m none, d)
    else (let (response, d') = send_command p (date_command path) d in
        (date_or_mtime m (find_date (lines [] response)), d'))

-- What `stop` does to the descriptors and the child.
pub data Event : Type 0 where
  asked_to_end closed_stdin closed_stdout waited : Event

unfoldable pub stop : ExifToolDaemon → List Event × ExifToolDaemon
stop d = (
  (if d.stdin_open then asked_to_end ∷ closed_stdin ∷ [] else [])
      ++ ((if d.stdout_open then closed_stdout ∷ [] else [])
          ++ (if d.child then waited ∷ [] else [])),
  record { running = false; stdin_open = false; stdout_open = false; child = false },
)
