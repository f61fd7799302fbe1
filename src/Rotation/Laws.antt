-- ===== src/Rotation/Laws.antt =====
-- What the rotation manager of src/rotation.cpp promises: coalesced intents, locks that are released,
-- and orientations that are recorded behind a success of exiftool.
use autodngconverter.Base.{
  ℕ, ◌+◌, ◌≡◌, refl, ap, ◌∙◌, true, ◌&&◌, Option, some, List, [], ◌∷◌, arith, lookup, lookup-insert,
  erase, nat_eq, Map, ◌==◌, if◌then◌else◌,
}
use autodngconverter.Rotation.{
  PendingRot, Manager, Intent, queue, asked, wrote, unlocked, Trace, Services, exiftool_command,
  write_orientation, notify, insert_all, current, dispatch, visit, dispatch_due, flush_one, flush,
  stop,
}

-- A series of intents, each with the clock when it is queued.
abbrev pub queue_all : List (ℕ × Intent) → Manager → Manager
queue_all [] m = m
queue_all ((now, r) ∷ rs) m = queue_all rs (queue now r m)

-- The pending rotation that the last intent for the import leaves, or the one that was pending.
abbrev pub latest : ℕ → ℕ → List (ℕ × Intent) → Option PendingRot → Option PendingRot
latest grace id [] before = before
latest grace id ((now, r) ∷ rs) before = latest grace id rs (
    if r.import_id == id
    then some (record {
      orientation = r.orientation;
      dng_path = r.dng_path;
      client_id = r.client_id;
      deadline = now + grace;
    })
    else before)

-- However many intents are queued for an import, the last one alone is pending, and its grace period
-- counts from its own arrival; the intents for other imports do not change it.
pub lookup-queue_all :
    (rs : List (ℕ × Intent)) (m : Manager) (id : ℕ)
    → lookup id (queue_all rs m).pending ≡ latest m.grace_ms id rs (lookup id m.pending)
unfolding queue
lookup-queue_all [] m id = refl
lookup-queue_all ((now, r) ∷ rs) m id =
    lookup-queue_all rs (queue now r m) id
    ∙ ap (latest m.grace_ms id rs) (lookup-insert r.import_id id _ m.pending)

-- How often the trace takes and gives back the lock of an import, and records its orientation.
abbrev pub locks : ℕ → Trace → ℕ
locks id [] = 0
locks id (asked j true ∷ t) = (if j == id then 1 else 0) + locks id t
locks id (_ ∷ t) = locks id t

abbrev pub unlocks : ℕ → Trace → ℕ
unlocks id [] = 0
unlocks id (unlocked j ∷ t) = (if j == id then 1 else 0) + unlocks id t
unlocks id (_ ∷ t) = unlocks id t

-- Every lock of the import that is taken between the traces is given back between them.
abbrev pub IsBalanced : ℕ → Trace → Trace → Type 0
IsBalanced id t u = locks id u + unlocks id t ≡ locks id t + unlocks id u

module _ (sv : Services) (m : Manager) (id : ℕ) where
  locks-write_orientation :
      (j : ℕ) (rot : PendingRot) (t : Trace)
      → (locks id (write_orientation sv m j rot t) ≡ locks id t)
        × (unlocks id (write_orientation sv m j rot t) ≡ unlocks id t)
  unfolding write_orientation
  locks-write_orientation j rot t = ground arith

  locks-notify :
      (t : Trace)
      → (locks id (notify sv m t) ≡ locks id t) × (unlocks id (notify sv m t) ≡ unlocks id t)
  unfolding notify
  locks-notify t = ground arith

  dispatch-IsBalanced :
      (j : ℕ) (rot : PendingRot) (t : Trace) → IsBalanced id t (dispatch sv m j rot t)
  unfolding dispatch
  dispatch-IsBalanced j rot t = ground (
    arith,
    locks-notify (write_orientation sv m j rot (asked j true ∷ t)),
    locks-write_orientation j rot (asked j true ∷ t),
  )

  visit-IsBalanced :
      (now : ℕ) (p later : Map ℕ PendingRot) (t : Trace)
      → IsBalanced id t (visit sv m now p later t).2
  unfolding visit
  visit-IsBalanced now [] later t = omega arith
  visit-IsBalanced now ((j, rot) ∷ p) later t =
      let u = dispatch sv m j (current j rot later) t in
      ground (
        arith,
        visit-IsBalanced now p later t,
        visit-IsBalanced now p (insert_all (sv.arrived u) (erase j later)) u,
        dispatch-IsBalanced j (current j rot later) t,
      )

  -- Every lock of an import that a dispatch round takes it also releases, whatever exiftool answers.
  pub dispatch_due-IsBalanced :
      (now : ℕ) (p : Map ℕ PendingRot) (t : Trace) → IsBalanced id t (dispatch_due sv m now p t).1
  unfolding dispatch_due
  dispatch_due-IsBalanced now p t = visit-IsBalanced now p [] t

  flush-IsBalanced : (p : Map ℕ PendingRot) (t : Trace) → IsBalanced id t (flush sv m p t)
  unfolding flush flush_one
  flush-IsBalanced [] t = omega arith
  flush-IsBalanced ((j, rot) ∷ p) t = ground (arith, flush-IsBalanced p (flush_one sv m j rot t))

  -- The shutdown releases every lock that it takes, and a second call of it does nothing.
  pub stop-IsBalanced :
      (t : Trace)
      → IsBalanced id t (stop sv m t).1 × (stop sv (stop sv m t).0 (stop sv m t).1 ≡ stop sv m t)
  unfolding stop
  stop-IsBalanced t = ground (arith, flush-IsBalanced m.pending t)

-- How often the lock of an import is asked for, and how often its orientation is recorded.
abbrev pub requests : ℕ → Trace → ℕ
requests id [] = 0
requests id (asked j ok ∷ t) = (if j == id then 1 else 0) + requests id t
requests id (_ ∷ t) = requests id t

abbrev pub writes : ℕ → Trace → ℕ
writes id [] = 0
writes id (wrote j o ∷ t) = (if j == id then 1 else 0) + writes id t
writes id (_ ∷ t) = writes id t

module _ (sv : Services) (m : Manager) (id : ℕ) where
  counts-write_orientation :
      (j : ℕ) (rot : PendingRot) (t : Trace)
      → (requests id (write_orientation sv m j rot t) ≡ requests id t)
        × (writes id (write_orientation sv m j rot t)
            ≡ (if sv.system t (exiftool_command m rot) == 0 && j == id then 1 else 0) + writes id t)
  unfolding write_orientation
  counts-write_orientation j rot t = ground arith

  counts-notify :
      (t : Trace)
      → (requests id (notify sv m t) ≡ requests id t) × (writes id (notify sv m t) ≡ writes id t)
  unfolding notify
  counts-notify t = ground arith

  pub requests-dispatch :
      (j : ℕ) (rot : PendingRot) (t : Trace)
      → requests id (dispatch sv m j rot t) ≡ (if j == id then 1 else 0) + requests id t
  unfolding dispatch
  requests-dispatch j rot t = ground (
    arith,
    counts-notify (write_orientation sv m j rot (asked j true ∷ t)),
    counts-write_orientation j rot (asked j true ∷ t),
  )

  -- A dispatch records an orientation exactly if it gets the lock and exiftool exits with 0; the
  -- shutdown records it whenever it gets the lock, also where exiftool has failed.
  pub writes_lem :
      (j : ℕ) (rot : PendingRot) (t : Trace)
      → let rc = sv.system (asked j true ∷ t) (exiftool_command m rot) in
        (writes id (dispatch sv m j rot t)
          ≡ (if sv.acquire_lock t j && (rc == 0) && (j == id) then 1 else 0) + writes id t)
        × (writes id (flush_one sv m j rot t)
            ≡ (if sv.acquire_lock t j && (j == id) then 1 else 0) + writes id t)
  unfolding dispatch flush_one
  writes_lem j rot t = ground (
    arith,
    counts-notify (write_orientation sv m j rot (asked j true ∷ t)),
    counts-write_orientation j rot (asked j true ∷ t),
  )
