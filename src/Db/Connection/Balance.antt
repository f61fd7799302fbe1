-- ===== src/Db/Connection/Balance.antt =====
-- The connections of src/db.cpp are released.
use autodngconverter.Base.{ℕ, zero, suc, ◌+◌, ◌≤◌, ◌≡◌, refl, Bool, true, false, [], ◌∷◌, arith}
use autodngconverter.Db.Connection.{
  made, tried, slept, released, Trace, Library, Opened, open_loop, open_store, create_connection,
  retry, connect_worker, close,
}

-- The objects that were made, and those that were released.
abbrev pub makes : Trace → ℕ
makes [] = 0
makes (made true ∷ t) = 1 + makes t
makes (c ∷ t) = makes t

abbrev pub releases : Trace → ℕ
releases [] = 0
releases (released ∷ t) = 1 + releases t
releases (c ∷ t) = releases t

abbrev pub attempts : Trace → ℕ
attempts [] = 0
attempts (tried ok ∷ t) = 1 + attempts t
attempts (c ∷ t) = attempts t

-- Behind a close all objects are released, and no more than the attempts were made.
abbrev IsClosed : ℕ → Trace → Opened → Type 0
IsClosed n t x =
    (makes (close x) + releases t ≡ makes t + releases (close x))
    × (attempts (close x) ≤ attempts t + n)

module _ (lib : Library) where
  -- An object that was made before is the one that is closed.
  open_loop-IsClosed :
      (n : ℕ) (t : Trace)
      → (makes (close (open_loop lib n t)) + releases t + 1
          ≡ makes t + releases (close (open_loop lib n t)))
        × (attempts (close (open_loop lib n t)) ≤ attempts t + n)
  unfolding open_loop close
  open_loop-IsClosed zero t = (omega arith, omega arith)
  open_loop-IsClosed (suc n) t = go (lib.connect t) (open_loop-IsClosed n (slept ∷ tried false ∷ t))
    where
      next : Bool → Opened
      next b = elim b [
        | true ↦ (true, true, tried true ∷ t)
        | false ↦ open_loop lib n (slept ∷ tried false ∷ t)
      ]

      go :
          (b : Bool)
          → (makes (close (next false)) + releases t + 1 ≡ makes t + releases (close (next false)))
            × (attempts (close (next false)) ≤ 1 + attempts t + n)
          → (makes (close (next b)) + releases t + 1 ≡ makes t + releases (close (next b)))
            × (attempts (close (next b)) ≤ attempts t + suc n)
      go true h = (omega arith, omega arith)
      go false (h, k) = (h, omega arith)

  -- The store is closed as often as it was made, behind five attempts at most.
  pub open_store-IsClosed : (t : Trace) → IsClosed 5 t (open_store lib t)
  unfolding open_store close
  open_store-IsClosed t = go (lib.init t) (open_loop-IsClosed 5 (made true ∷ t))
    where
      start : Bool → Opened
      start b = elim b [
        | true ↦ open_loop lib 5 (made true ∷ t)
        | false ↦ (false, false, made false ∷ t)
      ]

      go :
          (b : Bool)
          → (makes (close (start true)) + releases t + 1
              ≡ 1 + makes t + releases (close (start true)))
            × (attempts (close (start true)) ≤ attempts t + 5)
          → IsClosed 5 t (start b)
      go true (h, k) = (omega arith, k)
      go false h = (omega arith, omega arith)

  create_connection-IsClosed : (t : Trace) → IsClosed 1 t (create_connection lib t)
  unfolding create_connection close
  create_connection-IsClosed t = go (lib.init t) (lib.connect (made true ∷ t))
    where
      connected : Bool → Opened
      connected c = elim c [
        | true ↦ (true, true, tried true ∷ made true ∷ t)
        | false ↦ (false, false, released ∷ tried false ∷ made true ∷ t)
      ]

      go :
          (b c : Bool)
          → IsClosed 1 t (elim b [ false ↦ (false, false, made false ∷ t) | true ↦ connected c ])
      go false c = (omega arith, omega arith)
      go true true = (omega arith, omega arith)
      go true false = (omega arith, omega arith)

  -- A connection that fails has no object.
  abbrev IsAlone : Opened → Type 0
  IsAlone (true, has, t) = Unit
  IsAlone (false, has, t) = has ≡ false

  create_connection-IsAlone : (t : Trace) → IsAlone (create_connection lib t)
  unfolding create_connection
  create_connection-IsAlone t = go (lib.init t) (lib.connect (made true ∷ t))
    where
      connected : Bool → Opened
      connected c = elim c [
        | true ↦ (true, true, tried true ∷ made true ∷ t)
        | false ↦ (false, false, released ∷ tried false ∷ made true ∷ t)
      ]

      go :
          (b c : Bool)
          → IsAlone (elim b [ false ↦ (false, false, made false ∷ t) | true ↦ connected c ])
      go false c = refl
      go true true = tt
      go true false = refl

  retry-IsClosed :
      (n : ℕ) (t : Trace) (x : Opened)
      → IsClosed 1 t x
      → IsAlone x
      → ((u : Trace) → IsClosed n u (connect_worker lib n u))
      → IsClosed (suc n) t (retry lib (connect_worker lib n) x)
  unfolding retry close
  retry-IsClosed n t (true, true, u) (h, k) a f = (h, omega arith)
  retry-IsClosed n t (true, false, u) (h, k) a f = (h, omega arith)
  retry-IsClosed n t (false, true, u) h a f = absurd cc
  retry-IsClosed n t (false, false, u) (h, k) a f =
      let (i, j) = f (slept ∷ u) in (omega arith, omega arith)

  -- A worker thread releases every connection that it made, whether or not it gets one, and makes no more
  -- attempts than it may.
  pub connect_worker-IsClosed : (n : ℕ) (t : Trace) → IsClosed n t (connect_worker lib n t)
  unfolding connect_worker close
  connect_worker-IsClosed zero t = (omega arith, omega arith)
  connect_worker-IsClosed (suc n) t = go (lib.stopped t) (
      retry-IsClosed n t (create_connection lib t) (create_connection-IsClosed t)
        (create_connection-IsAlone t) (connect_worker-IsClosed n))
    where
      go :
          (b : Bool)
          → IsClosed (suc n) t (retry lib (connect_worker lib n) (create_connection lib t))
          → IsClosed (suc n) t (elim b [
            | true ↦ (false, false, t)
            | false ↦ retry lib (connect_worker lib n) (create_connection lib t)
          ])
      go true h = (omega arith, omega arith)
      go false h = h
