-- ===== src/Exiftool/Tests.antt =====
-- Tests of src/exiftool_daemon.cpp, and the theorems at concrete exchanges.
use autodngconverter.Base.{
  ◌≡◌, refl, inr, true, false, some, List, [], ◌∷◌, ◌++◌, arith, Bytes, codes, bytes_eq,
  starts_with,
}
use autodngconverter.Pipeline.Types.{ExifResult, DateSource}
use autodngconverter.Util.Env.{lines}
use autodngconverter.Exiftool.Start.{System, start, parent, check_version}
use autodngconverter.Exiftool.Start.Descriptors.{Outcome, start-Outcome}
use autodngconverter.Exiftool.{
  ExifToolDaemon, Pipes, send_command, date_command, safe_path, extract_date, stamp_of_line,
  collect, judge_reply, chop, c_string, pieces, join, find_date, date_or_mtime, skip_leading,
  skip_blanks, parse_stamp, byte_is,
}
use autodngconverter.Exiftool.Protocol.{line, text, send_command-reply}
use autodngconverter.Exiftool.Dates.{Stamp, exif_line, day, clock, stamp_of_line-exif_line}

abbrev daemon : ExifToolDaemon
daemon = record { running = true; stdin_open = true; stdout_open = true; child = true }

abbrev answer : List Bytes
answer = codes "DateTimeOriginal: 2026:07:05 14:30:22" ∷ codes "FileModifyDate: x" ∷ []

abbrev pipes : Pipes
pipes = record { write = λ cmd. true; replies = λ cmd. text answer ++ line (codes "{ready}") }

abbrev modified : ExifResult
modified = record { date = codes "2020-01-01"; time = codes "00:00:00"; source = DateSource.mtime }

dated : (extract_date pipes modified (codes "-a.nef") daemon).0.date ≡ codes "2026-07-05"
unfolding c_string pieces extract_date send_command date_command safe_path stamp_of_line collect
    judge_reply chop join find_date date_or_mtime skip_leading skip_blanks parse_stamp byte_is
    bytes_eq starts_with lines
dated = refl

send_command-reply_example :
    (pipes.replies [] ≡ text answer ++ line (codes "{ready}")
      → (result : Bytes) × (line result ≡ text answer)
        × (send_command pipes [] daemon ≡ (result, daemon)))
    × (pipes.replies [] ≡ text answer
        → send_command pipes [] daemon ≡ ([], record daemon { running = false }))
unfolding bytes_eq
send_command-reply_example =
    send_command-reply pipes [] daemon (codes "DateTimeOriginal: 2026:07:05 14:30:22")
      (codes "FileModifyDate: x" ∷ []) refl refl refl refl refl
      ((refl, omega arith, refl), ((refl, omega arith, refl), tt))

abbrev stamp : Stamp
stamp = record {
  y1 = b'2';
  y2 = b'0';
  y3 = b'2';
  y4 = b'6';
  m1 = b'0';
  m2 = b'7';
  d1 = b'0';
  d2 = b'5';
  t1 = b'1';
  t2 = b'4';
  t3 = b':';
  t4 = b'3';
  t5 = b'0';
  t6 = b':';
  t7 = b'2';
  t8 = b'2';
}

stamp_of_line-exif_line_example :
    stamp_of_line (exif_line stamp (codes "+02:00")) ≡ some (day stamp, clock stamp)
stamp_of_line-exif_line_example = stamp_of_line-exif_line stamp (codes "+02:00") refl

-- A system that gives everything, with a child that answers the test command.
abbrev system : System
system = record {
  stdin_pipe = true;
  stdout_pipe = true;
  fork = true;
  fdopen = true;
  pipes = record { write = λ cmd. true; replies = λ cmd. codes "12.76\n{ready}\n" };
}

starts : (start system).0 ≡ true
unfolding start parent check_version send_command collect judge_reply chop join bytes_eq c_string
    pieces
starts = refl

start-Outcome_example : Outcome (start system)
start-Outcome_example = start-Outcome system (inr refl)
