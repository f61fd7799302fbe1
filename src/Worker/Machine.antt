-- ===== src/Worker/Machine.antt =====
-- The calls of a worker pass on the rest of the program and on the system, with their answers. The
-- services answer by the history of the calls, so that an answer may change at any time.
pub mod Rules
use autodngconverter.Base.{ℕ, ◌-◌, Bool, List, [], ◌∷◌, Bytes}
use autodngconverter.Pipeline.Types.{ConversionSettings, ImportRecord, ExifResult, FastFingerprint}
use autodngconverter.Worker.State.{Impl}

-- The histograms of src/metrics.cpp that a pass feeds.
pub data Stage : Type 0 where
  fast_fingerprint hash exif db conversion archive : Stage

pub data Event : Type 0 where
  clock : ℕ → Event
  detected : Event
  observed : Stage → ℕ → Event
  counted : Bool → Event
  fingerprinted : Bytes → FastFingerprint → Event
  hashed : Bytes → Bytes → Event
  looked_up : Bytes → Bool → Event
  made_dir : Bytes → Event
  moved : Bytes → Bytes → Bool → Event
  dated : Bytes → ExifResult → Event
  allocated : ℕ → Bytes → Event
  converted : Bytes → Bytes → ConversionSettings → Bool → Event
  inserted : ImportRecord → ℕ → Event
  thumbnail : Bytes → Bytes → Bytes → Event
  alerted : Bytes → Bytes → Bytes → Bool → Event

abbrev pub Trace : Type 0
Trace = List Event

-- The answers, newest call first in the history. `extract_date` is that of the daemon where there is
-- one, and `exif_from_mtime` otherwise; `convert` is false where there is no engine. `others` is what the other threads have done
-- to the shared state when this thread gets the lock.
pub record Services : Type 0 where
  pub now : Trace → ℕ
  pub compute_fast_fingerprint : Trace → Bytes → FastFingerprint
  pub sha256_file : Trace → Bytes → Bytes
  pub has_import : Trace → Bytes → Bool
  pub move_file : Trace → Bytes → Bytes → Bool
  pub extract_date : Trace → Bytes → ExifResult
  pub allocate_sequence : Trace → ℕ × Bytes
  pub convert : Trace → Bytes → Bytes → ConversionSettings → Bool
  pub insert_import : Trace → ImportRecord → ℕ
  pub extract_thumbnail : Trace → Bytes → Bytes → Bytes
  pub insert_alert : Trace → Bytes → Bytes → Bytes → Bool
  pub others : Trace → Impl → Impl

pub record Machine : Type 0 where
  pub impl : Impl
  pub trace : Trace

abbrev pub M : Type 0 → Type 0
M A = Machine → A × Machine

infixl 5 ◌>>=◌ ◌>>◌
unfoldable pub ◌>>=◌ : {A B : Type 0} → M A → (A → M B) → M B
◌>>=◌ m f s = let (a, t) = m s in f a t

abbrev pub ◌>>◌ : {B : Type 0} → M (Unit {0}) → M B → M B
m >> k = m >>= λ _. k

unfoldable pub pure : {A : Type 0} → A → M A
pure a s = (a, s)

-- One call: its answer, and the event that records it.
unfoldable pub call : {A : Type 0} → (Trace → A) → (A → Event) → M A
call ask event s = let a = ask s.trace in (a, record s { trace = event a ∷ s.trace })

unfoldable pub emit : Event → M (Unit {0})
emit e s = (tt, record s { trace = e ∷ s.trace })

-- A section under the lock that changes the state, and one that returns what it read too.
unfoldable pub update : Services → (Impl → Impl) → M (Unit {0})
update sv f s = (tt, record s { impl = f (sv.others s.trace s.impl) })

unfoldable pub locked : {A : Type 0} → Services → (Impl → A × Impl) → M A
locked sv f s = let (a, i) = f (sv.others s.trace s.impl) in (a, record s { impl = i })

-- An action between two readings of the clock, whose difference goes to a histogram.
unfoldable pub timed : {A : Type 0} → Services → Stage → M A → M A
timed sv stage m = do
  start ← call sv.now clock
  a ← m
  end ← call sv.now clock
  emit (observed stage (end - start))
  pure a
