-- ===== src/Exiftool/Start.antt =====
-- `ExifToolDaemon::start` of src/exiftool_daemon.cpp, for POSIX, as the parent sees it: the ends of the two
-- pipes, the child, and the test command.
pub mod Descriptors
use autodngconverter.Base.{
  ℕ, Bool, true, false, not, List, [], ◌∷◌, ◌++◌, Bytes, codes, is_empty, if◌then◌else◌,
}
use autodngconverter.Exiftool.{
  ExifToolDaemon, Pipes, send_command, Event, asked_to_end, closed_stdin, closed_stdout, waited,
  stop,
}

-- The read and the write end of the pipes to the input and from the output of the child.
pub data End : Type 0 where
  in_read in_write out_read out_write : End

pub data Call : Type 0 where
  opened : End → Call
  closed : End → Call
  forked : Call
  reaped : Call

-- Which calls of the system succeed, and the pipes to the child.
pub record System : Type 0 where
  pub stdin_pipe : Bool
  pub stdout_pipe : Bool
  pub fork : Bool
  pub fdopen : Bool
  pub pipes : Pipes

-- The descriptors and the child of `stop`: the parent holds one end of each pipe.
unfoldable pub calls_of : List Event → List Call
calls_of [] = []
calls_of (asked_to_end ∷ es) = calls_of es
calls_of (closed_stdin ∷ es) = closed in_write ∷ calls_of es
calls_of (closed_stdout ∷ es) = closed out_read ∷ calls_of es
calls_of (waited ∷ es) = reaped ∷ calls_of es

abbrev pub absent : ExifToolDaemon
absent = record { running = false; stdin_open = false; stdout_open = false; child = false }

abbrev both_pipes : List Call
both_pipes = opened in_read ∷ opened in_write ∷ opened out_read ∷ opened out_write ∷ []

abbrev pub Started : Type 0
Started = Bool × List Call × ExifToolDaemon

-- The end of a start that fails behind the fork.
unfoldable pub give_up : List Call → ExifToolDaemon → Started
give_up calls d = let (es, d') = stop d in (false, calls ++ calls_of es, d')

unfoldable pub check_version : List Call → Bytes × ExifToolDaemon → Started
check_version calls (response, d) = if is_empty response then give_up calls d else (true, calls, d)

-- The child and both ends are there, with this flag.
abbrev pub up : Bool → ExifToolDaemon
up running = record { running = running; stdin_open = true; stdout_open = true; child = true }

-- The parent behind the fork: the flag is set in front of the test command.
unfoldable pub parent : System → Started
parent sys =
    let calls = both_pipes ++ (forked ∷ closed in_read ∷ closed out_write ∷ []) in
    if not sys.fdopen
    then give_up calls (up false)
    else check_version calls (send_command sys.pipes (codes "-ver\n-execute\n") (up true))

-- Where the second pipe fails, the first one stays open.
unfoldable pub start : System → Started
start sys =
    if not sys.stdin_pipe
    then (false, [], absent)
    else if not sys.stdout_pipe
    then (false, opened in_read ∷ opened in_write ∷ [], absent)
    else if not sys.fork
    then (
      false,
      both_pipes ++ (closed in_read ∷ closed in_write ∷ closed out_read ∷ closed out_write ∷ []),
      absent,
    )
    else parent sys
