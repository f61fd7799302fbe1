-- ===== src/Exiftool/Start/Descriptors.antt =====
-- What a start of src/exiftool_daemon.cpp leaves open.
use autodngconverter.Base.{
  ℕ, ◌+◌, ◌≡◌, refl, sym, ◌⊎◌, inl, inr, Bool, true, false, not, List, [], ◌∷◌, ◌++◌, arith, Bytes,
  codes, is_empty, Option, none, some, if◌then◌else◌, if-Holds,
}
use mathlib.Core.Path.{subst}
use autodngconverter.Exiftool.{
  ExifToolDaemon, Pipes, send_command, judge_reply, collect, pieces, stop,
}
use autodngconverter.Exiftool.Start.{
  End, in_read, in_write, out_read, out_write, Call, opened, closed, forked, reaped, System,
  calls_of, absent, Started, up, give_up, check_version, parent, start,
}

-- The calls that open the end, less the calls that close it; and the children less the ones waited for.
abbrev pub is_end : End → End → Bool
is_end in_read in_read = true
is_end in_write in_write = true
is_end out_read out_read = true
is_end out_write out_write = true
is_end _ _ = false

abbrev pub opens : End → List Call → ℕ
opens e [] = 0
opens e (opened f ∷ t) = (if is_end f e then 1 else 0) + opens e t
opens e (c ∷ t) = opens e t

abbrev pub closes : End → List Call → ℕ
closes e [] = 0
closes e (closed f ∷ t) = (if is_end f e then 1 else 0) + closes e t
closes e (c ∷ t) = closes e t

abbrev pub children : List Call → ℕ
children [] = 0
children (forked ∷ t) = 1 + children t
children (c ∷ t) = children t

abbrev pub waits : List Call → ℕ
waits [] = 0
waits (reaped ∷ t) = 1 + waits t
waits (c ∷ t) = waits t

-- Nothing is left: every end is closed as often as it was opened, and every child was waited for.
abbrev pub IsClean : List Call → Type 0
IsClean t = ((e : End) → opens e t ≡ closes e t) × (children t ≡ waits t)

-- A running daemon with its child, its two ends, and the calls of a stop that leave nothing.
abbrev pub IsUp : List Call → ExifToolDaemon → Type 0
IsUp t d = (d.running ≡ true) × (d.child ≡ true) × IsClean (t ++ calls_of (stop d).0)

abbrev pub Outcome : Started → Type 0
Outcome (true, t, d) = IsUp t d
Outcome (false, t, d) = IsClean t × (d ≡ absent)

abbrev calls : List Call
calls =
    opened in_read
    ∷ opened in_write
    ∷ opened out_read
    ∷ opened out_write
    ∷ forked
    ∷ closed in_read
    ∷ closed out_write
    ∷ []

stopped-IsClean : (running : Bool) → IsClean (calls ++ calls_of (stop (up running)).0)
unfolding stop calls_of
stopped-IsClean running = (ends, refl)
  where
    ends :
        (e : End)
        → opens e (calls ++ calls_of (stop (up running)).0)
          ≡ closes e (calls ++ calls_of (stop (up running)).0)
    ends in_read = refl
    ends in_write = refl
    ends out_read = refl
    ends out_write = refl

give_up-Outcome : (running : Bool) → Outcome (give_up calls (up running))
unfolding give_up stop calls_of
give_up-Outcome running = (stopped-IsClean running, refl)

-- The test command changes no more than the flag, and an answer leaves it set.
abbrev IsTested : Bytes × ExifToolDaemon → Type 0
IsTested (s, d) = (d ≡ up true) ⊎ ((is_empty s ≡ true) × (d ≡ up false))

judge_reply-IsTested : (o : Option Bytes) → IsTested (judge_reply (up true) o)
unfolding judge_reply
judge_reply-IsTested none = inr (refl, refl)
judge_reply-IsTested (some s) = inl refl

send_command-IsTested : (p : Pipes) (cmd : Bytes) → IsTested (send_command p cmd (up true))
unfolding send_command
send_command-IsTested p cmd =
    if-Holds IsTested (p.write cmd) _ _
      (λ _. judge_reply-IsTested (collect [] (pieces 1023 [] (p.replies cmd))))
      (λ _. inr (refl, refl))

check_version-Outcome : (x : Bytes × ExifToolDaemon) → IsTested x → Outcome (check_version calls x)
unfolding check_version
check_version-Outcome (s, d) (inl h) =
    subst (λ x. Outcome (check_version calls (s, x))) (sym h)
      (if-Holds Outcome (is_empty s) _ _ (λ _. give_up-Outcome true)
        (λ _. (refl, refl, stopped-IsClean true)))
check_version-Outcome (s, d) (inr (e, h)) =
    subst (λ x. Outcome (check_version calls (s, x))) (sym h) (rw (e) (give_up-Outcome false))

parent-Outcome : (sys : System) → Outcome (parent sys)
unfolding parent
parent-Outcome sys =
    if-Holds Outcome (not sys.fdopen) _ _ (λ _. give_up-Outcome false)
      (λ _. check_version-Outcome _ (send_command-IsTested sys.pipes (codes "-ver\n-execute\n")))

abbrev unforked : List Call
unforked =
    opened in_read
    ∷ opened in_write
    ∷ opened out_read
    ∷ opened out_write
    ∷ closed in_read
    ∷ closed in_write
    ∷ closed out_read
    ∷ closed out_write
    ∷ []

every_end : (e : End) → opens e unforked ≡ closes e unforked
every_end in_read = refl
every_end in_write = refl
every_end out_read = refl
every_end out_write = refl

-- Without a fork: no pipe, or both of them opened and closed.
unforked-IsClean : IsClean unforked
unforked-IsClean = (every_end, refl)

-- Unless the second pipe fails, a start that succeeds leaves a running daemon with its child, and a stop
-- from there closes every descriptor and waits for the child; a start that fails at any other point has
-- closed every descriptor that it opened, and has waited for its child.
pub start-Outcome :
    (sys : System) → (sys.stdin_pipe ≡ false) ⊎ (sys.stdout_pipe ≡ true) → Outcome (start sys)
unfolding start
start-Outcome sys h =
    if-Holds Outcome (not sys.stdin_pipe) _ _ (λ _. (((λ e. refl), refl), refl))
      (λ a.
        if-Holds Outcome (not sys.stdout_pipe) _ _ (λ b. absurd (both_fail h a b))
          (λ _.
            if-Holds Outcome (not sys.fork) _ _ (λ _. (unforked-IsClean, refl))
              (λ _. parent-Outcome sys)))
  where
    both_fail :
        (sys.stdin_pipe ≡ false) ⊎ (sys.stdout_pipe ≡ true)
        → not sys.stdin_pipe ≡ false
        → not sys.stdout_pipe ≡ true
        → ⊥
    both_fail (inl e) a b = absurd (ground arith)
    both_fail (inr e) a b = absurd (ground arith)
