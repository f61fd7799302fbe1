-- ===== src/Api/Listener.antt =====
-- `ApiServer::Run` and `ApiServer::Stop` of src/api.cpp, for POSIX. The calls of the system are answered by
-- the history, newest call first; another thread may set the flag before any of its readings.
pub mod Sockets
use autodngconverter.Base.{
  ℕ, zero, suc, Bool, true, false, not, Option, none, some, List, [], ◌∷◌, if◌then◌else◌,
}

pub data Call : Type 0 where
  opened : ℕ → Call
  bound : ℕ → Bool → Call
  listened : ℕ → Bool → Call
  accepted : Option ℕ → Call
  handled : ℕ → Call
  closed : ℕ → Call
  read_flag : Bool → Call
  joined : Call

abbrev pub Trace : Type 0
Trace = List Call

-- `socket` and `accept` give a descriptor or fail; `stopped` is the flag.
pub record System : Type 0 where
  pub socket : Trace → Option ℕ
  pub bind : Trace → Bool
  pub listen : Trace → Bool
  pub accept : Trace → Option ℕ
  pub stopped : Trace → Bool

-- `ApiServer::Impl`: the socket that listens, whether there is a thread, and the flag.
pub record Server : Type 0 where
  pub listen_fd : Option ℕ
  pub joinable : Bool
  pub stop : Bool

abbrev pub idle : Server
idle = record { listen_fd = none; joinable = false; stop = false }

module _ (sys : System) where
  -- A socket that cannot be used is closed.
  unfoldable pub set_up : ℕ → Trace → Server × Trace
  set_up fd t =
      let u = bound fd (sys.bind t) ∷ t in
      let v = listened fd (sys.listen u) ∷ u in
      if not (sys.bind t)
      then (idle, closed fd ∷ u)
      else if not (sys.listen u)
      then (idle, closed fd ∷ v)
      else (record { listen_fd = some fd; joinable = true; stop = false }, v)

  unfoldable pub open_socket : Option ℕ → Trace → Server × Trace
  open_socket none t = (idle, t)
  open_socket (some fd) t = set_up fd (opened fd ∷ t)

  unfoldable pub run : Trace → Server × Trace
  run t = open_socket (sys.socket t) t

  -- A connection is handled and closed, and the loop goes on; behind a failure the flag is read.
  unfoldable pub serve : Option ℕ → Trace → Bool × Trace
  serve (some fd) t = (true, closed fd ∷ handled fd ∷ accepted (some fd) ∷ t)
  serve none t = let u = accepted none ∷ t in (not (sys.stopped u), read_flag (sys.stopped u) ∷ u)

  -- The thread, for at most a number of rounds.
  unfoldable pub accept_loop : ℕ → Trace → Trace
  accept_loop zero t = t
  accept_loop (suc rounds) t = elim (sys.stopped t) [
    | true ↦ read_flag true ∷ t
    | false ↦
        let (more, u) = serve (sys.accept (read_flag false ∷ t)) (read_flag false ∷ t) in
        elim more [ true ↦ accept_loop rounds u | false ↦ u ]
  ]

unfoldable pub close_socket : Option ℕ → Trace → Trace
close_socket none t = t
close_socket (some fd) t = closed fd ∷ t

-- The first call sets the flag, closes the socket and waits for the thread; a later one does nothing.
unfoldable pub stop : Server → Trace → Server × Trace
stop s t =
    let u = close_socket s.listen_fd t in
    if s.stop then (s, t) else (
      record { listen_fd = none; joinable = false; stop = true },
      if s.joinable then joined ∷ u else u,
    )
