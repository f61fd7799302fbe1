-- ===== src/Worker/Reconvert.antt =====
-- `Worker::ReconvertDrain` of src/worker.cpp: the jobs that it takes from the queue one after the
-- other. The store, the engine and the digest answer by the history of the calls, newest call first.
pub mod Sound
use autodngconverter.Base.{
  ℕ, Bool, true, false, Option, none, some, List, [], ◌∷◌, Bytes, if◌then◌else◌,
}
use autodngconverter.Pipeline.Types.{
  ConversionSettings, ImportRecord, ImportStatus, completed, failed, ReconversionJob,
}
use autodngconverter.Worker.State.{Impl}

pub data Event : Type 0 where
  looked_up : ℕ → Bool → Event
  converted : Bytes → Bytes → ConversionSettings → Bool → Event
  hashed : Bytes → Bytes → Event
  updated_hash : ℕ → Bytes → Bool → Event
  updated_job : ℕ → Bytes → ImportStatus → Bool → Event

abbrev pub Trace : Type 0
Trace = List Event

pub record Services : Type 0 where
  pub has_engine : Bool
  pub get_import : Trace → ℕ → Option ImportRecord
  pub convert : Trace → Bytes → Bytes → ConversionSettings → Bool
  -- An empty text where the digest fails.
  pub sha256_file : Trace → Bytes → Bytes
  pub update_output_hash : Trace → ℕ → Bytes → Bool
  pub update_reconversion : Trace → ℕ → Bytes → ImportStatus → Bool

-- The section under the lock: the first job and the queue without it.
unfoldable pub take_job : Impl → Option (ReconversionJob × Impl)
take_job i = front i.reconverts
  where
    front : List ReconversionJob → Option (ReconversionJob × Impl)
    front [] = none
    front (job ∷ jobs) = some (job, record i { reconverts = jobs })

module _ (sv : Services) where
  -- `UpdateReconversion`; the code reads neither its answer nor that of `UpdateOutputHash`.
  unfoldable pub record_job : ℕ → Bytes → ImportStatus → Trace → Trace
  record_job id h status t = updated_job id h status (sv.update_reconversion t id h status) ∷ t

  unfoldable pub finish : ReconversionJob → ImportRecord → Trace → Trace
  unfolding record_job
  finish job r t =
      let h = sv.sha256_file t r.output_path in
      let u = hashed r.output_path h ∷ t in
      record_job job.id h completed (updated_hash r.id h (sv.update_output_hash u r.id h) ∷ u)

  unfoldable pub reconvert : ReconversionJob → ImportRecord → Trace → Trace
  unfolding finish record_job
  reconvert job r t =
      let ok = sv.convert t r.source_path r.output_path job.settings in
      let u = converted r.source_path r.output_path job.settings ok ∷ t in
      if ok then finish job r u else record_job job.id [] failed u

  unfoldable pub run_found : ReconversionJob → Option ImportRecord → Trace → Trace
  unfolding reconvert
  run_found job none t = looked_up job.import_id false ∷ t
  run_found job (some r) t =
      if sv.has_engine
      then reconvert job r (looked_up job.import_id true ∷ t)
      else looked_up job.import_id true ∷ t

  unfoldable pub run_job : ReconversionJob → Trace → Trace
  unfolding run_found
  run_job job t = run_found job (sv.get_import t job.import_id) t

  -- The jobs of a queue in their order.
  unfoldable pub drain : List ReconversionJob → Trace → Trace
  unfolding run_job
  drain [] t = t
  drain (job ∷ jobs) t = drain jobs (run_job job t)
