-- ===== src/Exiftool/Protocol.antt =====
-- The exchange of src/exiftool_daemon.cpp with its child.
use autodngconverter.Base.{
  ℕ, ◌-◌, ◌<◌, ◌≡◌, refl, sym, ◌∙◌, ap, true, false, List, [], ◌∷◌, ◌++◌, ◌||◌, arith, All, Bytes,
  codes, bytes_eq, is_empty, any, leb, length, ◌==◌, append_assoc, append-nil,
}
use autodngconverter.Exiftool.{
  ExifToolDaemon, Pipes, pieces, c_string, chop, join, collect, judge_reply, send_command,
}

-- The path that is sent never begins with a dash.
abbrev pub IsNoOption : Bytes → Type 0
IsNoOption [] = Unit
IsNoOption (c ∷ s) = (c == b'-') ≡ false

-- A line that ExifTool documents to take from its argument file as it is: not blank, no comment, and
-- without white space in front.
abbrev pub IsTaken : Bytes → Type 0
IsTaken [] = ⊥
IsTaken (c ∷ s) = (leb c 32 || c == b'#') ≡ false

-- A line of the reply, and the text of several.
abbrev pub line : Bytes → Bytes
line s = s ++ (b'\n' ∷ [])

abbrev pub text : List Bytes → Bytes
text [] = []
text (s ∷ ss) = line s ++ text ss

-- A line that is not the sentinel, fits the buffer, and holds neither a newline nor a NUL.
abbrev pub IsPlain : Bytes → Type 0
IsPlain s =
    (bytes_eq s (codes "{ready}") ≡ false)
    × (length s < 1023)
    × (any (λ c. c == b'\n' || c == 0) s ≡ false)

abbrev joined : Bytes → List Bytes → Bytes
joined result [] = result
joined result (s ∷ ss) = joined (join result s) ss

chop-line : (s : Bytes) → chop (line s) ≡ s
unfolding chop
chop-line [] = refl
chop-line (c ∷ []) = refl
chop-line (c ∷ d ∷ s) = ap (c ∷◌) (chop-line (d ∷ s))

c_string-line : (s : Bytes) → any (λ c. c == b'\n' || c == 0) s ≡ false → c_string (line s) ≡ line s
unfolding c_string
c_string-line [] h = refl
c_string-line (c ∷ s) h =
    let zero_free : (c == 0) ≡ false = ground arith in
    rw (zero_free) (ap (c ∷◌) (c_string-line s (ground arith)))

-- A line that fits comes as one piece.
pieces-line :
    (s cur rest : Bytes) (room : ℕ)
    → any (λ c. c == b'\n' || c == 0) s ≡ false
    → length s < room
    → pieces room cur (line s ++ rest) ≡ (cur ++ line s) ∷ pieces 1023 [] rest
unfolding pieces
pieces-line [] cur rest room h l = refl
pieces-line (c ∷ s) cur rest room h l =
    let more : (c == b'\n' || room == 1) ≡ false = ground arith in
    rw (pieces, more)
      (pieces-line s (cur ++ (c ∷ [])) rest (room - 1) (ground arith) (omega arith)
        ∙ ap (λ w. w ∷ pieces 1023 [] rest) (append_assoc cur (c ∷ []) (line s)))

-- The pieces of a reply of lines, in front of what follows.
collect-text :
    (ss : List Bytes) (rest result : Bytes)
    → All IsPlain ss
    → collect result (pieces 1023 [] (text ss ++ rest))
      ≡ collect (joined result ss) (pieces 1023 [] rest)
unfolding collect
collect-text [] rest result h = refl
collect-text (s ∷ ss) rest result ((n, l, p), hs) =
    ap (λ t. collect result (pieces 1023 [] t)) (append_assoc (line s) (text ss) rest)
    ∙ ap (collect result) (pieces-line s [] (text ss ++ rest) 1023 p l)
    ∙ rw (c_string-line s p, chop-line s, n) (collect-text ss rest (join result s) hs)

reply-ready :
    (d : ExifToolDaemon) (result : Bytes)
    → judge_reply d (collect result (pieces 1023 [] (line (codes "{ready}")))) ≡ (result, d)
unfolding judge_reply collect chop c_string bytes_eq pieces
reply-ready d result = refl

reply-unended :
    (d : ExifToolDaemon) (result : Bytes)
    → judge_reply d (collect result (pieces 1023 [] [])) ≡ ([], record d { running = false })
unfolding judge_reply collect pieces
reply-unended d result = refl

-- The lines of the result are those of the reply.
line-joined :
    (r : Bytes) (ss : List Bytes) → is_empty r ≡ false → line (joined r ss) ≡ line r ++ text ss
unfolding join
line-joined r [] h = sym (append-nil (line r))
line-joined [] (s ∷ ss) h = absurd cc
line-joined (c ∷ r) (s ∷ ss) h =
    line-joined (c ∷ (r ++ (b'\n' ∷ s))) ss refl
    ∙ ap (◌++ text ss) (
        append_assoc (c ∷ r) (b'\n' ∷ s) (b'\n' ∷ [])
        ∙ sym (append_assoc (c ∷ r) (b'\n' ∷ []) (line s)))
    ∙ append_assoc (line (c ∷ r)) (line s) (text ss)

send_command-written :
    (p : Pipes) (cmd : Bytes) (d : ExifToolDaemon)
    → d.running ≡ true
    → d.child ≡ true
    → d.stdout_open ≡ true
    → p.write cmd ≡ true
    → send_command p cmd d ≡ judge_reply d (collect [] (pieces 1023 [] (p.replies cmd)))
unfolding send_command
send_command-written p cmd d r c o w = simp (r, c, o, w)

-- A reply of lines that are not the sentinel, the first of them not empty, is returned whole but for its
-- last newline once the sentinel comes, and the daemon stays as it is; where the reply ends without the
-- sentinel, the answer is empty and the daemon is no longer running. The command is written, and each
-- line has fewer than 1023 bytes and no NUL.
pub send_command-reply :
    (p : Pipes) (cmd : Bytes) (d : ExifToolDaemon) (s : Bytes) (ss : List Bytes)
    → d.running ≡ true
    → d.child ≡ true
    → d.stdout_open ≡ true
    → p.write cmd ≡ true
    → is_empty s ≡ false
    → All IsPlain (s ∷ ss)
    → (p.replies cmd ≡ text (s ∷ ss) ++ line (codes "{ready}")
        → (result : Bytes) × (line result ≡ text (s ∷ ss)) × (send_command p cmd d ≡ (result, d)))
      × (p.replies cmd ≡ text (s ∷ ss) → send_command p cmd d ≡ ([], record d { running = false }))
unfolding send_command judge_reply join
send_command-reply p cmd d s ss r c o w f h = (
  λ e. (
    joined s ss,
    line-joined s ss f,
    send_command-written p cmd d r c o w
        ∙ ap (λ t. judge_reply d (collect [] (pieces 1023 [] t))) e
        ∙ ap (judge_reply d) (collect-text (s ∷ ss) (line (codes "{ready}")) [] h)
        ∙ reply-ready d (joined s ss),
  ),
  λ e.
      send_command-written p cmd d r c o w
      ∙ ap (λ t. judge_reply d (collect [] (pieces 1023 [] t)))
          (e ∙ sym (append-nil (text (s ∷ ss))))
      ∙ ap (judge_reply d) (collect-text (s ∷ ss) [] [] h)
      ∙ reply-unended d (joined s ss),
)
