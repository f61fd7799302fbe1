-- ===== src/Worker/Machine/Rules.antt =====
-- Rules for what the actions of a worker keep and establish in the shared state, whatever the
-- services answer, and whatever the other threads do that keeps the same statement.
use autodngconverter.Base.{Bool, true, false, ◌∷◌, if◌then◌else◌}
use autodngconverter.Worker.State.{Impl}
use autodngconverter.Worker.Machine.{
  Stage, Event, Trace, Services, Machine, M, ◌>>=◌, pure, call, emit, update, locked, timed,
}

-- The other threads keep `P`.
abbrev pub Rely : Services → (Impl → Type 0) → Type 0
Rely sv P = (t : Trace) (i : Impl) → P i → P (sv.others t i)

-- The action keeps `P`.
pub record Keeps {A : Type 0} (P : Impl → Type 0) (m : M A) : Type 0 where
  pub at : (s : Machine) → P s.impl → P (m s).1.impl

-- `P` holds when the action is over, from any state.
pub record Ends {A : Type 0} (P : Impl → Type 0) (m : M A) : Type 0 where
  pub at : (s : Machine) → P (m s).1.impl

module _ {P : Impl → Type 0} where
  pub Keeps-pure : {A : Type 0} (a : A) → Keeps P (pure a)
  unfolding pure
  Keeps-pure a = record { at = λ s h. h }

  pub Keeps-call : {A : Type 0} (ask : Trace → A) (event : A → Event) → Keeps P (call ask event)
  unfolding call
  Keeps-call ask event = record { at = λ s h. h }

  pub Keeps-emit : (e : Event) → Keeps P (emit e)
  unfolding emit
  Keeps-emit e = record { at = λ s h. h }

  pub Keeps-bind :
      {A B : Type 0} (m : M A) (f : A → M B)
      → Keeps P m
      → ((a : A) → Keeps P (f a))
      → Keeps P (m >>= f)
  unfolding ◌>>=◌
  Keeps-bind m f km kf = record { at = λ s h. (kf (m s).0).at (m s).1 (km.at s h) }

  pub Keeps-if :
      {A : Type 0} (b : Bool) (m n : M A) → Keeps P m → Keeps P n → Keeps P (if b then m else n)
  Keeps-if true m n km kn = km
  Keeps-if false m n km kn = kn

  pub Keeps-timed :
      {A : Type 0} (sv : Services) (stage : Stage) (m : M A)
      → Keeps P m
      → Keeps P (timed sv stage m)
  unfolding timed ◌>>=◌ call emit pure
  Keeps-timed sv stage m km = record {
    at = λ s h. km.at (record s { trace = Event.clock (sv.now s.trace) ∷ s.trace }) h;
  }

  pub Ends-bind :
      {A B : Type 0} (m : M A) (f : A → M B) → ((a : A) → Ends P (f a)) → Ends P (m >>= f)
  unfolding ◌>>=◌
  Ends-bind m f e = record { at = λ s. (e (m s).0).at (m s).1 }

  pub Ends-bind_Keeps :
      {A B : Type 0} (m : M A) (f : A → M B)
      → Ends P m
      → ((a : A) → Keeps P (f a))
      → Ends P (m >>= f)
  unfolding ◌>>=◌
  Ends-bind_Keeps m f e k = record { at = λ s. (k (m s).0).at (m s).1 (e.at s) }

  pub Ends-if :
      {A : Type 0} (b : Bool) (m n : M A) → Ends P m → Ends P n → Ends P (if b then m else n)
  Ends-if true m n em en = em
  Ends-if false m n em en = en

  -- A section under the lock keeps what the other threads keep and the section itself keeps.
  pub Keeps-update :
      (sv : Services) (f : Impl → Impl)
      → Rely sv P
      → ((i : Impl) → P i → P (f i))
      → Keeps P (update sv f)
  unfolding update
  Keeps-update sv f rely k = record { at = λ s h. k _ (rely s.trace s.impl h) }

  pub Keeps-locked :
      {A : Type 0} (sv : Services) (f : Impl → A × Impl)
      → Rely sv P
      → ((i : Impl) → P i → P (f i).1)
      → Keeps P (locked sv f)
  unfolding locked
  Keeps-locked sv f rely k = record { at = λ s h. k _ (rely s.trace s.impl h) }

  pub Ends-update :
      (sv : Services) (f : Impl → Impl) → ((i : Impl) → P (f i)) → Ends P (update sv f)
  unfolding update
  Ends-update sv f k = record { at = λ s. k _ }

pub ruleset keeps_rules = (Keeps-pure, Keeps-call, Keeps-emit, Keeps-bind, Keeps-if, Keeps-timed)
