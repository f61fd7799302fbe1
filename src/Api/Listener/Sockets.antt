-- ===== src/Api/Listener/Sockets.antt =====
-- The descriptors of the server of src/api.cpp.
use autodngconverter.Base.{
  ℕ, zero, suc, ◌+◌, ◌≡◌, refl, Bool, true, false, not, Option, none, some, [], ◌∷◌, arith, ◌==◌,
  if◌then◌else◌, if-Holds,
}
use autodngconverter.Api.Listener.{
  opened, bound, accepted, closed, read_flag, Trace, System, Server, set_up, open_socket, run,
  serve, accept_loop, close_socket, stop,
}

abbrev one : ℕ → ℕ → ℕ
one d fd = if d == fd then 1 else 0

-- How often a descriptor is given by the system, and how often it is closed.
abbrev pub opens : ℕ → Trace → ℕ
opens fd [] = 0
opens fd (opened d ∷ t) = one d fd + opens fd t
opens fd (accepted (some d) ∷ t) = one d fd + opens fd t
opens fd (c ∷ t) = opens fd t

abbrev pub closes : ℕ → Trace → ℕ
closes fd [] = 0
closes fd (closed d ∷ t) = one d fd + closes fd t
closes fd (c ∷ t) = closes fd t

-- The descriptor that the server holds.
abbrev holds : ℕ → Option ℕ → ℕ
holds fd none = 0
holds fd (some d) = one d fd

-- All descriptors are closed, except the one that is held.
abbrev IsBalanced : ℕ → Server × Trace → Type 0
IsBalanced fd (s, t) = opens fd t ≡ closes fd t + holds fd s.listen_fd

module _ (sys : System) (fd : ℕ) where
  set_up-IsBalanced :
      (d : ℕ) (t : Trace) → opens fd t ≡ closes fd t + one d fd → IsBalanced fd (set_up sys d t)
  unfolding set_up
  set_up-IsBalanced d t h =
      if-Holds (IsBalanced fd) (not (sys.bind t)) _ _ (λ _. omega arith)
        (λ _.
          if-Holds (IsBalanced fd) (not (sys.listen (bound d (sys.bind t) ∷ t))) _ _
            (λ _. omega arith) (λ _. h))

  open_socket-IsBalanced :
      (o : Option ℕ) (t : Trace) → opens fd t ≡ closes fd t → IsBalanced fd (open_socket sys o t)
  unfolding open_socket
  open_socket-IsBalanced none t h = omega arith
  open_socket-IsBalanced (some d) t h = set_up-IsBalanced d (opened d ∷ t) (omega arith)

  -- The connections of the thread are closed.
  abbrev Keeps : ℕ → Trace → Type 0
  Keeps k t = opens fd t ≡ closes fd t + k

  serve-Keeps : (k : ℕ) (o : Option ℕ) (t : Trace) → Keeps k t → Keeps k (serve sys o t).1
  unfolding serve
  serve-Keeps k (some d) t h = omega arith
  serve-Keeps k none t h = h

  accept_loop-Keeps : (k rounds : ℕ) (t : Trace) → Keeps k t → Keeps k (accept_loop sys rounds t)
  unfolding accept_loop
  accept_loop-Keeps k zero t h = h
  accept_loop-Keeps k (suc rounds) t h =
      go (sys.stopped t) (serve sys (sys.accept u) u) (serve-Keeps k (sys.accept u) u h)
        (accept_loop-Keeps k rounds)
    where
      u : Trace
      u = read_flag false ∷ t

      go :
          (b : Bool) (x : Bool × Trace)
          → Keeps k x.1
          → ((v : Trace) → Keeps k v → Keeps k (accept_loop sys rounds v))
          → Keeps k (elim b [
            | true ↦ read_flag true ∷ t
            | false ↦ elim x.0 [ true ↦ accept_loop sys rounds x.1 | false ↦ x.1 ]
          ])
      go true x i f = h
      go false (true, v) i f = f v i
      go false (false, v) i f = i

  close_socket-Keeps :
      (o : Option ℕ) (t : Trace)
      → opens fd t ≡ closes fd t + holds fd o
      → opens fd (close_socket o t) ≡ closes fd (close_socket o t)
  unfolding close_socket
  close_socket-Keeps none t h = omega arith
  close_socket-Keeps (some d) t h = omega arith

  abbrev AllClosed : Server × Trace → Type 0
  AllClosed (s, t) = opens fd t ≡ closes fd t

  stop-AllClosed :
      (s : Server) (t : Trace) → s.stop ≡ false → IsBalanced fd (s, t) → AllClosed (stop s t)
  unfolding stop
  stop-AllClosed s t n h = simp (n) (
      if-Holds (λ u. opens fd u ≡ closes fd u) s.joinable _ _
        (λ _. close_socket-Keeps s.listen_fd t h) (λ _. close_socket-Keeps s.listen_fd t h))

  abbrev IsRunning : Server × Trace → Type 0
  IsRunning (s, t) = s.stop ≡ false

  open_socket-IsRunning : (o : Option ℕ) (t : Trace) → IsRunning (open_socket sys o t)
  unfolding open_socket set_up
  open_socket-IsRunning none t = refl
  open_socket-IsRunning (some d) t =
      if-Holds IsRunning (not (sys.bind (opened d ∷ t))) _ _ (λ _. refl)
        (λ _. if-Holds IsRunning (not (sys.listen _)) _ _ (λ _. refl) (λ _. refl))

  -- From the start of the server over any number of rounds of its thread to its stop, every descriptor that
  -- the system gave was closed as often as it was given, also where the set-up fails.
  pub stop-run :
      (rounds : ℕ)
      → opens fd (stop (run sys []).0 (accept_loop sys rounds (run sys []).1)).1
        ≡ closes fd (stop (run sys []).0 (accept_loop sys rounds (run sys []).1)).1
  unfolding run
  stop-run rounds =
      stop-AllClosed (run sys []).0 (accept_loop sys rounds (run sys []).1)
        (open_socket-IsRunning (sys.socket []) [])
        (accept_loop-Keeps (holds fd (run sys []).0.listen_fd) rounds (run sys []).1
          (open_socket-IsBalanced (sys.socket []) [] refl))
