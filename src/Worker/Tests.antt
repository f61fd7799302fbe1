-- ===== src/Worker/Tests.antt =====
-- Tests of src/worker.cpp, and the theorems at concrete inputs.
use autodngconverter.Base.{
  ◌≡◌, refl, true, false, some, [], ◌∷◌, Bytes, codes, bytes_eq, bytes_eq_instance, lookup, insert,
  erase, contains, pos, length, to_string,
}
use autodngconverter.Config.{default_config}
use autodngconverter.Pipeline.Types.{DateSource}
use autodngconverter.Pipeline.Schema.{build_folder_schema}
use autodngconverter.Worker.State.{Impl, FpEntry, initial}
use autodngconverter.Worker.Poll.{DirEntry, scan, poll_entry, enqueue, taken, filename}
use autodngconverter.Worker.Machine.{
  Services, Machine, ◌>>=◌, pure, call, emit, update, locked, timed,
}
use autodngconverter.Worker.Machine.Rules.{Keeps, Ends}
use autodngconverter.Worker.Process.{
  make_dir, move, sha256, bury, count_and_bury, move_to_dead_letter, gate, keep_hash, rehash,
  or_rehash, source_hash, archive_duplicate, thumbnail, settings, complete, abandon, convert,
  import_file, dedup, process_file, release, forget_failures, count_failure, cache_hit, cache_store,
}
use autodngconverter.Base.{◌==◌, none, if◌then◌else◌}
use autodngconverter.Pipeline.Types.{ReconversionJob, ImportStatus, empty_record, default_settings}
use autodngconverter.Worker.Reconvert
use autodngconverter.Worker.Reconvert.Sound.{IsSound, drain-IsSound}
use autodngconverter.Worker.Process.Sections.{IsConsistent}
use autodngconverter.Worker.Process.Ownership.{
  IsReleased, IsUntouched, process_file-IsReleased, process_file-IsUntouched,
}
use autodngconverter.Worker.Threads.{here, next, scanned, Reach-IsConsistent}

abbrev photo : Bytes
photo = codes "/watch/a.nef"

abbrev entry : DirEntry
entry = record { path = photo; regular = true; age = pos 60 }

one_scan : (scan default_config 5 (entry ∷ entry ∷ []) initial).files ≡ photo ∷ []
unfolding scan poll_entry lookup insert erase contains bytes_eq taken enqueue
one_scan = refl

-- Every service succeeds, and no other thread runs.
abbrev healthy : Services
healthy = record {
  now = λ t. length t;
  compute_fast_fingerprint = λ t p. record { size = 1; mtime = 2; fnv1a_4k = 3 };
  sha256_file = λ t p. codes "abc";
  has_import = λ t h. false;
  move_file = λ t from to. true;
  extract_date = λ t p. record {
    date = codes "2026-07-05";
    time = codes "14:30:22";
    source = DateSource.exif;
  };
  allocate_sequence = λ t. (7, codes "IMG_7");
  convert = λ t src dst s. true;
  insert_import = λ t r. 1;
  extract_thumbnail = λ t d o. [];
  insert_alert = λ t s c m. true;
  others = λ t i. i;
}

-- Every service fails.
abbrev broken : Services
broken = record healthy { sha256_file = λ t p. []; convert = λ t src dst s. false }

abbrev owned : Machine
owned = record { impl = taken photo [] (enqueue 5 photo initial); trace = [] }

failure_counted :
    lookup photo (process_file broken default_config photo owned).1.impl.fail_counts ≡ some 1
unfolding make_dir move sha256 bury count_and_bury move_to_dead_letter gate keep_hash rehash
    or_rehash source_hash archive_duplicate thumbnail settings complete abandon convert import_file
    dedup process_file release forget_failures count_failure cache_hit cache_store ◌>>=◌ pure call
    emit update locked timed build_folder_schema filename to_string lookup insert erase contains
    bytes_eq taken enqueue
failure_counted = refl

-- Converted, recorded under its sequence number, and archived in the folder of its month.
archived : (process_file healthy default_config photo owned).1.impl.inflight ≡ []
unfolding make_dir move sha256 bury count_and_bury move_to_dead_letter gate keep_hash rehash
    or_rehash source_hash archive_duplicate thumbnail settings complete abandon convert import_file
    dedup process_file release forget_failures count_failure cache_hit cache_store ◌>>=◌ pure call
    emit update locked timed build_folder_schema filename to_string lookup insert erase contains
    bytes_eq taken enqueue
archived = refl

process_file-IsReleased_example : Ends (IsReleased photo) (process_file broken default_config photo)
process_file-IsReleased_example = process_file-IsReleased broken default_config photo (λ t i h. h)

process_file-IsUntouched_example :
    Keeps (IsUntouched photo owned.impl) (process_file healthy default_config photo)
process_file-IsUntouched_example =
    process_file-IsUntouched healthy default_config photo owned.impl (λ t i h. h)

abbrev queued : Impl
queued = scan default_config 5 (entry ∷ []) initial

Reach-IsConsistent_example : IsConsistent default_config queued
Reach-IsConsistent_example = Reach-IsConsistent (next here (scanned 5 (entry ∷ []) initial))

abbrev print : FpEntry
print = record { size = 1; mtime = 2; fnv = 3; sha256 = codes "abc"; last_seen = 9 }

abbrev older : FpEntry
older = record print { last_seen = 4 }

-- The second of two jobs has an unknown import.
abbrev job : ReconversionJob
job = record {
  id = 3;
  import_id = 1;
  previous_output_hash = codes "abc";
  new_output_hash = [];
  settings = default_settings;
  reason = codes "edit";
  triggered_at = [];
  completed_at = [];
  status = ImportStatus.pending;
  error_message = [];
}

abbrev reconverting : Reconvert.Services
reconverting = record {
  has_engine = true;
  get_import = λ t id. if id == 1 then some empty_record else none;
  convert = λ t src dst s. true;
  sha256_file = λ t p. codes "def";
  update_output_hash = λ t id h. true;
  update_reconversion = λ t id h s. true;
}

drain-IsSound_example :
    IsSound reconverting
      (λ j. j.id ≡ job.id)
      (Reconvert.drain reconverting (job ∷ record job { import_id = 2 } ∷ []) [])
drain-IsSound_example =
    drain-IsSound reconverting (λ j. j.id ≡ job.id) (job ∷ record job { import_id = 2 } ∷ []) []
      (refl, (refl, tt)) tt
