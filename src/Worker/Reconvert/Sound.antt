-- ===== src/Worker/Reconvert/Sound.antt =====
-- What the outcomes that `Worker::ReconvertDrain` of src/worker.cpp records mean.
use autodngconverter.Base.{
  ℕ, ◌≡◌, refl, true, false, Option, none, some, List, [], ◌∷◌, All, Bytes, if-Holds, Bool-cases,
  inl, inr,
}
use autodngconverter.Pipeline.Types.{ImportRecord, ImportStatus, completed, failed, ReconversionJob}
use autodngconverter.Worker.Reconvert.{
  looked_up, converted, hashed, updated_hash, updated_job, Trace, Services, record_job, finish,
  reconvert, run_found, run_job, drain,
}

module _ (sv : Services) (IsJob : ReconversionJob → Type 0) where
  -- A job with the number, and the import that the store gave for it.
  abbrev Names : ℕ → ImportRecord → Trace → Type 0
  Names id r (looked_up import_id true ∷ t) =
      (job : ReconversionJob) × IsJob job
      × (job.id ≡ id)
      × (job.import_id ≡ import_id)
      × (sv.get_import t import_id ≡ some r)
  Names id r _ = ⊥

  -- A completed job: the output of its import was converted from the source of its import, the digest of
  -- that output was taken, and it was stored with that import and with the job.
  abbrev Completed : ℕ → Bytes → Trace → Type 0
  Completed id h
        (updated_hash import_id stored ok ∷ hashed path taken ∷ converted src dst s true ∷ t) =
      (h ≡ taken)
      × (stored ≡ taken)
      × ((r : ImportRecord) × Names id r t
          × (import_id ≡ r.id)
          × (path ≡ r.output_path)
          × (src ≡ r.source_path)
          × (dst ≡ r.output_path))
  Completed id h _ = ⊥

  -- A failed job: the conversion of its import failed.
  abbrev Failed : ℕ → Bytes → Trace → Type 0
  Failed id h (converted src dst s false ∷ t) =
      (h ≡ []) × ((r : ImportRecord) × Names id r t × (src ≡ r.source_path) × (dst ≡ r.output_path))
  Failed id h _ = ⊥

  abbrev Outcome : ImportStatus → ℕ → Bytes → Trace → Type 0
  Outcome completed id h t = Completed id h t
  Outcome failed id h t = Failed id h t
  Outcome _ id h t = ⊥

  abbrev pub IsSound : Trace → Type 0
  IsSound [] = Unit
  IsSound (updated_job id h status ok ∷ t) = Outcome status id h t × IsSound t
  IsSound (_ ∷ t) = IsSound t

  reconvert-IsSound :
      (job : ReconversionJob) (r : ImportRecord) (t : Trace)
      → Names job.id r t
      → IsSound t
      → IsSound (reconvert sv job r t)
  unfolding reconvert finish record_job
  reconvert-IsSound job r t n h =
      elim (Bool-cases (sv.convert t r.source_path r.output_path job.settings)) [
        | inl ok ↦ rw (ok) ((refl, refl, (r, n, refl, refl, refl, refl)), h)
        | inr ko ↦ rw (ko) ((refl, (r, n, refl, refl)), h)
      ]

  run_found-IsSound :
      (job : ReconversionJob) (o : Option ImportRecord) (t : Trace)
      → IsJob job
      → sv.get_import t job.import_id ≡ o
      → IsSound t
      → IsSound (run_found sv job o t)
  unfolding run_found
  run_found-IsSound job none t j e h = h
  run_found-IsSound job (some r) t j e h =
      let u = looked_up job.import_id true ∷ t in
      if-Holds IsSound sv.has_engine (reconvert sv job r u) u
        (λ _. reconvert-IsSound job r u (job, j, refl, refl, e) h) (λ _. h)

  -- Whatever jobs are drained, one is recorded as completed only right after the source of its import was
  -- converted to the output of its import, with the answer of `sha256_file` for that output, empty where
  -- it fails, which the store was asked to keep with that import too; one is recorded as failed only
  -- right after that conversion failed, with no digest; and no other status or job is recorded.
  pub drain-IsSound :
      (jobs : List ReconversionJob) (t : Trace)
      → All IsJob jobs
      → IsSound t
      → IsSound (drain sv jobs t)
  unfolding drain run_job
  drain-IsSound [] t j h = h
  drain-IsSound (job ∷ jobs) t (j, js) h =
      drain-IsSound jobs (run_job sv job t) js
        (run_found-IsSound job (sv.get_import t job.import_id) t j refl h)
