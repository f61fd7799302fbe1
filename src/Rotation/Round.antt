-- ===== src/Rotation/Round.antt =====
-- Which intents a round of the dispatch loop of src/rotation.cpp dispatches.
use autodngconverter.Base.{
  ℕ, ◌+◌, ◌≡◌, ◌&&◌, [], ◌∷◌, lookup, leb, nat_eq, none, Map, ◌==◌, if◌then◌else◌,
}
use autodngconverter.Rotation.{PendingRot, Manager, Trace, Services}
use autodngconverter.Rotation.Laws.{requests}

-- The intents that are not due, and how many that are due for an import.
abbrev pub not_due : ℕ → Map ℕ PendingRot → Map ℕ PendingRot
not_due now [] = []
not_due now ((id, rot) ∷ p) =
    let rest = not_due now p in if leb rot.deadline now then rest else (id, rot) ∷ rest

abbrev pub due_count : ℕ → ℕ → Map ℕ PendingRot → ℕ
due_count now id [] = 0
due_count now id ((j, rot) ∷ p) =
    (if leb rot.deadline now && j == id then 1 else 0) + due_count now id p

module _ (sv : Services) (m : Manager) (id : ℕ) where
  -- No intent for the import is queued during a dispatch.
  abbrev pub NoneArrives : Type 0
  NoneArrives = (t : Trace) → lookup id (sv.arrived t) ≡ none

  -- What a round does with the import, from what is found of the later intents.
  abbrev Visited :
      ℕ → Map ℕ PendingRot → Trace → Map ℕ PendingRot × Map ℕ PendingRot × Trace → Type 0
  Visited now p t (kept, later, u) =
      (lookup id kept ≡ lookup id (not_due now p))
      × (lookup id later ≡ none)
      × (requests id u ≡ due_count now id p + requests id t)
