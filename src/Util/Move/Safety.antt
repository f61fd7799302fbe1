-- ===== src/Util/Move/Safety.antt =====
-- What `move_file` of src/util.cpp promises: no source is lost.
use autodngconverter.Base.{
  ℕ, zero, suc, ◌+◌, ◌-◌, ◌≡◌, refl, sym, ◌∙◌, ap, ◌⊎◌, inl, inr, Bool, true, false, Option, none,
  some, [], ◌∷◌, ◌==◌, ==_iff, ltb, if◌then◌else◌, if-Holds,
}
use autodngconverter.Util.Move.{
  File, source, target, parent, again, renamed, opened, stated, copied, exhausted, synced, closed,
  duplicated, removed, Trace, Files, copy_loop, sync_opened, remove_source, copy_whole, conclude,
  copy_to, copy_across, move_file,
}

-- The size that the last `fstat` gave, the bytes that are copied since, and whether the last copy of
-- the whole file since the last rename succeeded.
abbrev pub size_of : Trace → Option ℕ
size_of [] = none
size_of (stated o ∷ t) = o
size_of (_ ∷ t) = size_of t

abbrev pub copied_bytes : Trace → ℕ
copied_bytes [] = 0
copied_bytes (stated o ∷ t) = 0
copied_bytes (copied n ∷ t) = copied_bytes t + n
copied_bytes (_ ∷ t) = copied_bytes t

abbrev pub is_duplicated : Trace → Bool
is_duplicated [] = false
is_duplicated (renamed ok ∷ t) = false
is_duplicated (duplicated ok ∷ t) = ok
is_duplicated (_ ∷ t) = is_duplicated t

abbrev pub Secured : Trace → Type 0
Secured t = (is_duplicated t ≡ true) ⊎ (size_of t ≡ some (copied_bytes t))

-- The source was complete at the target whenever it was removed.
abbrev pub IsSafe : Trace → Type 0
IsSafe [] = Unit
IsSafe (removed ok ∷ t) = Secured t × IsSafe t
IsSafe (_ ∷ t) = IsSafe t

module _ (fs : Files) where
  abbrev Copies : ℕ → ℕ × Trace → Type 0
  Copies size (sum, t) = IsSafe t × (size_of t ≡ some size) × (copied_bytes t ≡ sum)

  -- The loop counts what its calls have copied, and changes nothing else that safety reads.
  copy_loop-Copies :
      (fuel size offset sum : ℕ) (t : Trace)
      → Copies size (sum, t)
      → Copies size (copy_loop fs fuel size offset sum t)
  unfolding copy_loop
  copy_loop-Copies zero size offset sum t h = h
  copy_loop-Copies (suc fuel) size offset sum t (h, k, l) =
      let n = fs.copy_file_range t (size - offset) in
      let rest = copy_loop fs fuel size (offset + n) (sum + n) (copied n ∷ t) in
      if-Holds (Copies size) (ltb offset size) (if n == 0 then (sum, exhausted ∷ t) else rest)
        (sum, t)
        (λ _.
          if-Holds (Copies size) (n == 0) (sum, exhausted ∷ t) rest (λ _. (h, k, l))
            (λ _.
              copy_loop-Copies fuel size (offset + n) (sum + n) (copied n ∷ t) (h, k, ap (◌+ n) l)))
        (λ _. (h, k, l))

  abbrev Safely : Trace → Type 0
  Safely t = IsSafe t × Secured t

  sync_opened-Safely : (f : File) (t : Trace) → Safely t → Safely (sync_opened fs f t)
  unfolding sync_opened
  sync_opened-Safely f t h =
      if-Holds Safely (fs.open_file t f) (closed f ∷ synced f ∷ opened f true ∷ t)
        (opened f false ∷ t) (λ _. h) (λ _. h)

  remove_source-IsSafe : (t : Trace) → Safely t → IsSafe (remove_source fs t).1
  unfolding remove_source
  remove_source-IsSafe t (h, k) = (k, h)

  abbrev Ends : Bool × Trace → Type 0
  Ends r = IsSafe r.1

  copy_whole-IsSafe : (t : Trace) → IsSafe t → IsSafe (copy_whole fs t).1
  unfolding copy_whole
  copy_whole-IsSafe t h =
      let u = duplicated (fs.copy_file t) ∷ t in
      if-Holds Ends (fs.copy_file t) (remove_source fs (sync_opened fs again u)) (false, u)
        (λ k. remove_source-IsSafe (sync_opened fs again u) (sync_opened-Safely again u (h, inl k)))
        (λ _. h)

  conclude-IsSafe : (size : ℕ) (r : ℕ × Trace) → Copies size r → IsSafe (conclude fs size r).1
  unfolding conclude
  conclude-IsSafe size (sum, t) (h, k, l) =
      let u = synced target ∷ t in
      if-Holds Ends (sum == size)
        (remove_source fs (closed target ∷ closed source ∷ sync_opened fs parent u))
        (copy_whole fs (closed target ∷ closed source ∷ t))
        (λ e.
          remove_source-IsSafe (closed target ∷ closed source ∷ sync_opened fs parent u)
            (sync_opened-Safely parent u (h, inr (k ∙ ap some (sym (l ∙ (==_iff sum size).0 e))))))
        (λ _. copy_whole-IsSafe (closed target ∷ closed source ∷ t) h)

  copy_to-IsSafe :
      (o : Option ℕ) (t : Trace)
      → IsSafe t
      → size_of t ≡ o
      → copied_bytes t ≡ 0
      → IsSafe (copy_to fs o t).1
  unfolding copy_to
  copy_to-IsSafe none t h k l = h
  copy_to-IsSafe (some size) t h k l =
      let u = opened target true ∷ t in
      if-Holds Ends (fs.open_file t target) (conclude fs size (copy_loop fs size size 0 0 u))
        (false, closed source ∷ opened target false ∷ t)
        (λ _.
          conclude-IsSafe size (copy_loop fs size size 0 0 u)
            (copy_loop-Copies size size 0 0 u (h, k, l)))
        (λ _. h)

  -- The source is removed only when its content is complete at the target: either the bytes that
  -- copy_file_range has copied are as many as the size that `fstat` gave, or `fs::copy_file` succeeded.
  pub move_file-IsSafe : (t : Trace) → IsSafe t → IsSafe (move_file fs t).1
  unfolding move_file copy_across
  move_file-IsSafe t h =
      let u = opened source true ∷ renamed false ∷ t in
      if-Holds Ends (fs.rename t) (true, renamed true ∷ t) (copy_across fs (renamed false ∷ t))
        (λ _. h)
        (λ _.
          if-Holds Ends (fs.open_file (renamed false ∷ t) source)
            (copy_to fs (fs.fstat u) (stated (fs.fstat u) ∷ u))
            (false, opened source false ∷ renamed false ∷ t)
            (λ _. copy_to-IsSafe (fs.fstat u) (stated (fs.fstat u) ∷ u) h refl refl) (λ _. h))
