-- ===== src/Util/Move.antt =====
-- `move_file` of src/util.cpp, as it is built for POSIX. The file system answers by the history of the
-- calls, newest call first.
pub mod Safety
pub mod Balance
mod Tests
use autodngconverter.Base.{
  ℕ, zero, suc, ◌+◌, ◌-◌, Bool, true, false, Option, none, some, List, [], ◌∷◌, ◌==◌, ltb,
  if◌then◌else◌,
}

-- The files that are opened: the source, the target, its directory, and the target for its sync.
pub data File : Type 0 where
  source target parent again : File

-- `copied` is a call of copy_file_range with the bytes that it has copied, `exhausted` one that
-- returns 0 or an error; `duplicated` is `fs::copy_file`.
pub data Event : Type 0 where
  renamed : Bool → Event
  opened : File → Bool → Event
  stated : Option ℕ → Event
  copied : ℕ → Event
  exhausted : Event
  synced : File → Event
  closed : File → Event
  duplicated : Bool → Event
  removed : Bool → Event

abbrev pub Trace : Type 0
Trace = List Event

-- `copy_file_range` gets the bytes that remain, and 0 stands for an error too.
pub record Files : Type 0 where
  pub rename : Trace → Bool
  pub open_file : Trace → File → Bool
  pub fstat : Trace → Option ℕ
  pub copy_file_range : Trace → ℕ → ℕ
  pub copy_file : Trace → Bool
  pub remove : Trace → Bool

module _ (fs : Files) where
  -- The loop of copy_file_range: the bytes that it has copied.
  unfoldable pub copy_loop : ℕ → ℕ → ℕ → ℕ → Trace → ℕ × Trace
  copy_loop zero size offset sum t = (sum, t)
  copy_loop (suc fuel) size offset sum t =
      let n = fs.copy_file_range t (size - offset) in
      let rest = copy_loop fuel size (offset + n) (sum + n) (copied n ∷ t) in
      if ltb offset size then (if n == 0 then (sum, exhausted ∷ t) else rest) else (sum, t)

  unfoldable pub sync_opened : File → Trace → Trace
  sync_opened f t =
      if fs.open_file t f then closed f ∷ synced f ∷ opened f true ∷ t else opened f false ∷ t

  unfoldable pub remove_source : Trace → Bool × Trace
  remove_source t = (fs.remove t, removed (fs.remove t) ∷ t)

  unfoldable pub copy_whole : Trace → Bool × Trace
  unfolding sync_opened remove_source
  copy_whole t =
      let u = duplicated (fs.copy_file t) ∷ t in
      if fs.copy_file t then remove_source (sync_opened again u) else (false, u)

  -- What follows the loop.
  unfoldable pub conclude : ℕ → ℕ × Trace → Bool × Trace
  unfolding sync_opened remove_source copy_whole
  conclude size (sum, t) =
      if sum == size
      then remove_source (closed target ∷ closed source ∷ sync_opened parent (synced target ∷ t))
      else copy_whole (closed target ∷ closed source ∷ t)

  unfoldable pub copy_to : Option ℕ → Trace → Bool × Trace
  unfolding copy_loop conclude
  copy_to none t = (false, closed source ∷ t)
  copy_to (some size) t =
      if fs.open_file t target
      then conclude size (copy_loop size size 0 0 (opened target true ∷ t))
      else (false, closed source ∷ opened target false ∷ t)

  unfoldable pub copy_across : Trace → Bool × Trace
  unfolding copy_to
  copy_across t =
      if fs.open_file t source
      then (let u = opened source true ∷ t in copy_to (fs.fstat u) (stated (fs.fstat u) ∷ u))
      else (false, opened source false ∷ t)

  unfoldable pub move_file : Trace → Bool × Trace
  unfolding copy_across
  move_file t = if fs.rename t then (true, renamed true ∷ t) else copy_across (renamed false ∷ t)
