-- ===== src/PreviewEmbed/Run.antt =====
-- A run of src/tools/dng_previewembed.cpp.
use autodngconverter.Base.{
  ◌≡◌, ◌≢◌, refl, sym, ◌⊎◌, inl, inr, Bool-cases, true, false, not, length, Option, none, some,
  List, [], ◌∷◌, arith, Bytes, lookup, lookup-insert, insert, contains, bytes_eq_instance, beq-ne,
  beq_refl, is_empty, stoi, ℤ, if-Holds,
}
use autodngconverter.PreviewEmbed.{
  Files, Outcome, report, Disk, read_file, is_jpeg, embed, write, check_files, check, check_numbers,
  main, failed,
}

-- A run that fails changes no file; one that ends with 0 had a picture of JPEG form, and it has changed the
-- DNG file alone, to what the write of the embedding leaves.
abbrev pub IsRun : Disk → Bytes → Bytes → Files → Outcome → Type 0
IsRun disk dng jpeg fs o =
    ((o.code ≢ 0) × (o.files ≡ fs))
    ⊎ ((o.code ≡ 0)
        × (is_jpeg (read_file fs jpeg) ≡ true)
        × ((left : Bytes) × (disk.written dng (embed (read_file fs dng) (read_file fs jpeg))
              ≡ some left)
            × (lookup dng o.files ≡ some left))
        × ((path : Bytes) → path ≢ dng → lookup path o.files ≡ lookup path fs))

module _ (disk : Disk) (dng jpeg : Bytes) (w h q : ℤ) (fs : Files) where
  stopped : IsRun disk dng jpeg fs (failed 1 fs)
  stopped = inl (omega arith, refl)

  written_file : (d : Bytes) → lookup dng (insert dng d fs) ≡ some d
  written_file d = rw (lookup-insert dng dng d fs, beq_refl dng) refl

  other_file : (d path : Bytes) → path ≢ dng → lookup path (insert dng d fs) ≡ lookup path fs
  other_file d path n = rw (lookup-insert dng path d fs, beq-ne dng path (λ e. n (sym e))) refl

  write-IsRun :
      is_jpeg (read_file fs jpeg) ≡ true → IsRun disk dng jpeg fs (write disk dng jpeg w h q fs)
  unfolding write
  write-IsRun k = go (disk.written dng (embed (read_file fs dng) (read_file fs jpeg))) refl
    where
      ended : Option Bytes → Outcome
      ended o = elim o [
        | none ↦ failed 1 fs
        | some left ↦ record {
          code = 0;
          files = insert dng left fs;
          out = report dng jpeg w h q (length (read_file fs jpeg));
        }
      ]

      go :
          (o : Option Bytes)
          → disk.written dng (embed (read_file fs dng) (read_file fs jpeg)) ≡ o
          → IsRun disk dng jpeg fs (ended o)
      go none e = stopped
      go (some left) e = inr (refl, k, (left, e, written_file left), other_file left)

  check_files-IsRun : IsRun disk dng jpeg fs (check_files disk dng jpeg w h q fs)
  unfolding check_files
  check_files-IsRun =
      if-Holds (IsRun disk dng jpeg fs) (not (contains dng fs)) _ _ (λ _. stopped)
        (λ _.
          if-Holds (IsRun disk dng jpeg fs) (not (is_jpeg (read_file fs jpeg))) _ _ (λ _. stopped)
            (λ k.
              if-Holds (IsRun disk dng jpeg fs) (is_empty (read_file fs dng)) _ _ (λ _. stopped)
                (λ _. write-IsRun (ground arith))))

-- How the program ends, by its arguments: with fewer than five it reports their use, and otherwise it
-- makes a run, or an exception ends it.
abbrev pub Ends : Disk → List Bytes → Files → Option Outcome → Type 0
Ends disk (dng ∷ jpeg ∷ w ∷ h ∷ q ∷ args) fs (some o) = IsRun disk dng jpeg fs o
Ends disk (dng ∷ jpeg ∷ w ∷ h ∷ q ∷ args) fs none =
    (disk.can_stat dng ≡ false) ⊎ ((stoi w ≡ none) ⊎ ((stoi h ≡ none) ⊎ (stoi q ≡ none)))
Ends disk args fs (some o) = (o.code ≡ 2) × (o.files ≡ fs)
Ends disk args fs none = ⊥

check-Ends :
    (disk : Disk) (dng jpeg w h q : Bytes) (args : List Bytes) (fs : Files) (a b c : ℤ)
    → Ends disk (dng ∷ jpeg ∷ w ∷ h ∷ q ∷ args) fs (check disk dng jpeg a b c fs)
unfolding check
check-Ends disk dng jpeg w h q args fs a b c = elim (Bool-cases (disk.can_stat dng)) [
  | inl k ↦ rw (k) (check_files-IsRun disk dng jpeg a b c fs)
  | inr k ↦ rw (k) (inl k)
]

check_numbers-Ends :
    (disk : Disk) (dng jpeg w h q : Bytes) (args : List Bytes) (fs : Files) (a b c : Option ℤ)
    → stoi w ≡ a
    → stoi h ≡ b
    → stoi q ≡ c
    → Ends disk (dng ∷ jpeg ∷ w ∷ h ∷ q ∷ args) fs (check_numbers disk dng jpeg a b c fs)
unfolding check_numbers
check_numbers-Ends disk dng jpeg w h q args fs none b c d e f = inr (inl d)
check_numbers-Ends disk dng jpeg w h q args fs (some a) none c d e f = inr (inr (inl e))
check_numbers-Ends disk dng jpeg w h q args fs (some a) (some b) none d e f = inr (inr (inr f))
check_numbers-Ends disk dng jpeg w h q args fs (some a) (some b) (some c) d e f =
    check-Ends disk dng jpeg w h q args fs a b c

-- The program ends by an exception only if a number cannot be read or `fs::exists` throws, and by the exit
-- code 2 with fewer than five arguments. A run that fails leaves all files as they are, and one that ends
-- with 0 was given a picture of JPEG form and has changed the DNG file alone, to what its write left of
-- the embedding of the picture; whether that is all of it, the code does not look at.
pub main-Ends :
    (disk : Disk) (args : List Bytes) (fs : Files) → Ends disk args fs (main disk args fs)
unfolding main
main-Ends disk [] fs = (refl, refl)
main-Ends disk (_ ∷ []) fs = (refl, refl)
main-Ends disk (_ ∷ _ ∷ []) fs = (refl, refl)
main-Ends disk (_ ∷ _ ∷ _ ∷ []) fs = (refl, refl)
main-Ends disk (_ ∷ _ ∷ _ ∷ _ ∷ []) fs = (refl, refl)
main-Ends disk (dng ∷ jpeg ∷ w ∷ h ∷ q ∷ args) fs =
    check_numbers-Ends disk dng jpeg w h q args fs (stoi w) (stoi h) (stoi q) refl refl refl
