-- ===== src/Worker/Process.antt =====
-- `ProcessFile` and `move_to_dead_letter` of src/worker.cpp, call by call.
pub mod Sections
pub mod Keeps
pub mod Ownership
use autodngconverter.Base.{
  ℕ, ◌+◌, ◌-◌, Bool, true, false, not, ◌&&◌, Option, none, some, List, [], ◌∷◌, ◌++◌, Bytes, codes,
  is_empty, bytes_eq_instance, lookup, insert, erase, Map, to_string, ℤ, pos, leb_ℤ, ◌==◌,
  if◌then◌else◌,
}
use autodngconverter.Config.{Config}
use autodngconverter.Pipeline.Types.{
  ConversionSettings, default_settings, ImportStatus, ImportRecord, empty_record, ExifResult,
  FastFingerprint, fingerprint_eq,
}
use autodngconverter.Pipeline.Schema.{build_folder_schema}
use autodngconverter.Worker.State.{FpEntry, Impl}
use autodngconverter.Worker.Poll.{filename}
use autodngconverter.Worker.Cache.{evict_fp_cache}
use autodngconverter.Worker.Machine.{
  Stage, Event, Services, Machine, M, ◌>>=◌, ◌>>◌, pure, call, emit, update, locked, timed,
}

-- The lock sections.
unfoldable pub release : Bytes → Impl → Impl
release path i = record i { inflight = erase path i.inflight }

unfoldable pub forget_failures : Bytes → Impl → Impl
forget_failures path i = record i { fail_counts = erase path i.fail_counts }

abbrev or_zero : Option ℕ → ℕ
or_zero none = 0
or_zero (some n) = n

-- `++count`, and the entry goes when the count reaches the limit.
unfoldable pub count_failure : Config → Bytes → Impl → (ℕ × Bool) × Impl
count_failure cfg path i =
    let count = or_zero (lookup path i.fail_counts) + 1 in
    let give_up = leb_ℤ cfg.dead_letter_max_retries (pos count) in
    (
      (count, give_up),
      record i {
        fail_counts = if give_up then erase path i.fail_counts else insert path count i.fail_counts;
      },
    )

entry_print : FpEntry → FastFingerprint
entry_print e = record { size = e.size; mtime = e.mtime; fnv1a_4k = e.fnv }

-- The cached hash, if the fingerprint is that of the cached entry; the entry is seen again.
unfoldable pub use_entry : Bytes → FastFingerprint → ℕ → Impl → Option FpEntry → Option Bytes × Impl
unfolding entry_print fingerprint_eq
use_entry path fp now i none = (none, i)
use_entry path fp now i (some e) =
    if fingerprint_eq (entry_print e) fp
    then (
      some e.sha256,
      record i { fp_cache = insert path (record e { last_seen = now }) i.fp_cache },
    )
    else (none, i)

unfoldable pub cache_hit : Bytes → FastFingerprint → ℕ → Impl → Option Bytes × Impl
unfolding use_entry
cache_hit path fp now i = use_entry path fp now i (lookup path i.fp_cache)

unfoldable pub cache_store : Bytes → FastFingerprint → Bytes → ℕ → Impl → Impl
unfolding evict_fp_cache
cache_store path fp hash now i =
    let e : FpEntry = record {
      size = fp.size;
      mtime = fp.mtime;
      fnv = fp.fnv1a_4k;
      sha256 = hash;
      last_seen = now;
    } in
    evict_fp_cache (record i { fp_cache = insert path e i.fp_cache })

abbrev zero_print : FastFingerprint
zero_print = record { size = 0; mtime = 0; fnv1a_4k = 0 }

module _ (sv : Services) (cfg : Config) where
  unfoldable pub make_dir : Bytes → M (Unit {0})
  make_dir path = emit (Event.made_dir path)

  unfoldable pub move : Bytes → Bytes → M Bool
  move from to = call (λ t. sv.move_file t from to) (Event.moved from to)

  unfoldable pub sha256 : Bytes → M Bytes
  sha256 path = call (λ t. sv.sha256_file t path) (Event.hashed path)

  -- The file is out of retries: it goes to the folder of failures, with an alert.
  unfoldable pub bury : Bytes → ℕ → M (Unit {0})
  bury path count = do
    let dir = cfg.archive_dir ++ codes "/failed"
    make_dir dir
    ok ← move path (dir ++ codes "/" ++ filename path ++ codes ".failcount." ++ to_string count)
    if not ok then pure tt else do
      let msg = codes "Dead letter after " ++ to_string count ++ codes " retries: " ++ path
      _ ←
          call (λ t. sv.insert_alert t (codes "error") (codes "worker") msg)
            (Event.alerted (codes "error") (codes "worker") msg)
      pure tt

  -- What `move_to_dead_letter` does when it has released the file.
  unfoldable pub count_and_bury : Bytes → M (Unit {0})
  count_and_bury path = do
    (count, give_up) ← locked sv (count_failure cfg path)
    if give_up then bury path count else pure tt

  unfoldable pub move_to_dead_letter : Bytes → M (Unit {0})
  move_to_dead_letter path = do update sv (release path); count_and_bury path

  -- The fingerprint and the hash that it saves, if any.
  unfoldable pub gate : Bytes → M (FastFingerprint × Option Bytes)
  gate path =
      if cfg.fast_fingerprint
      then (do
        fp ← call (λ t. sv.compute_fast_fingerprint t path) (Event.fingerprinted path)
        now ← call sv.now Event.clock
        hit ← locked sv (cache_hit path fp now)
        pure (fp, hit))
      else pure (zero_print, none)

  unfoldable pub keep_hash : Bytes → FastFingerprint → Bytes → M Bytes
  keep_hash path fp hash = do
    now ← call sv.now Event.clock
    update sv (cache_store path fp hash now)
    pure hash

  -- The full hash, kept in the cache under the fingerprint.
  unfoldable pub rehash : Bytes → FastFingerprint → M Bytes
  rehash path fp = do
    hash ← timed sv Stage.hash (sha256 path)
    if not (is_empty hash) && cfg.fast_fingerprint then keep_hash path fp hash else pure hash

  unfoldable pub or_rehash : Bytes → FastFingerprint → Option Bytes → M Bytes
  or_rehash path fp none = rehash path fp
  or_rehash path fp (some hash) = pure hash

  -- Stages 1 and 2.
  unfoldable pub source_hash : Bytes → M Bytes
  source_hash path = do
    (fp, hit) ← timed sv Stage.fast_fingerprint (gate path)
    or_rehash path fp hit

  unfoldable pub archive_duplicate : Bytes → M (Unit {0})
  archive_duplicate path = do
    update sv (forget_failures path)
    let dir = cfg.archive_dir ++ codes "/duplicates"
    make_dir dir
    _ ← move path (dir ++ codes "/" ++ filename path)
    update sv (release path)

  unfoldable pub thumbnail : Bytes → Bytes → M (Unit {0})
  thumbnail dst thumb =
      if cfg.gen_thumb_jpeg
      then (do
        _ ← call (λ t. sv.extract_thumbnail t dst thumb) (Event.thumbnail dst thumb)
        pure tt)
      else pure tt

  unfoldable pub settings : ConversionSettings
  settings = record default_settings { compression = cfg.def_compression }

  -- Stages 6 to 8, after a conversion that succeeded.
  unfoldable pub complete : Bytes → Bytes → ExifResult → ℕ × Bytes → Bytes → M (Unit {0})
  complete path src_hash ex (seq_id, seq_name) folder = do
    let out_dir = cfg.output_dir ++ codes "/" ++ folder
    let dst = out_dir ++ codes "/" ++ seq_name ++ codes ".dng"
    update sv (forget_failures path)
    out_hash ← timed sv Stage.hash (sha256 dst)
    let rec : ImportRecord = record empty_record {
      sequence_id = seq_id;
      sequence_name = seq_name;
      source_path = path;
      source_hash = src_hash;
      output_path = dst;
      output_hash = out_hash;
      camera_model = codes "unknown";
      capture_date = ex.date;
      capture_time = ex.time;
      folder_schema = folder;
      conversion_settings = codes "{\"compression\":\"" ++ cfg.def_compression ++ codes "\"}";
      status = ImportStatus.completed;
    }
    _ ← timed sv Stage.db (call (λ t. sv.insert_import t rec) (Event.inserted rec))
    thumbnail dst (out_dir ++ codes "/" ++ seq_name ++ codes ".thumb.jpg")
    start ← call sv.now Event.clock
    let arch_dir = cfg.archive_dir ++ codes "/" ++ folder
    make_dir arch_dir
    _ ← move path (arch_dir ++ codes "/" ++ filename path)
    end ← call sv.now Event.clock
    emit (Event.observed Stage.archive (end - start))
    emit (Event.counted true)

  unfoldable pub abandon : Bytes → M (Unit {0})
  abandon path = do emit (Event.counted false); move_to_dead_letter path

  -- Stage 5 and what follows it, for an allocated sequence number.
  unfoldable pub convert : Bytes → Bytes → ExifResult → ℕ × Bytes → M (Unit {0})
  convert path src_hash ex (seq_id, seq_name) = do
    let folder = build_folder_schema cfg.folder_schema ex.date
    let out_dir = cfg.output_dir ++ codes "/" ++ folder
    make_dir out_dir
    let dst = out_dir ++ codes "/" ++ seq_name ++ codes ".dng"
    ok ←
        timed sv Stage.conversion
          (call (λ t. sv.convert t path dst settings) (Event.converted path dst settings))
    if ok then complete path src_hash ex (seq_id, seq_name) folder else abandon path
    update sv (release path)

  -- Stages 3 and 4.
  unfoldable pub import_file : Bytes → Bytes → M (Unit {0})
  import_file path src_hash = do
    ex ← timed sv Stage.exif (call (λ t. sv.extract_date t path) (Event.dated path))
    seq ← timed sv Stage.db (call sv.allocate_sequence (λ (a : ℕ × Bytes). Event.allocated a.0 a.1))
    if seq.0 == 0 then move_to_dead_letter path else convert path src_hash ex seq

  unfoldable pub dedup : Bytes → Bytes → M (Unit {0})
  dedup path src_hash = do
    dup ← call (λ t. sv.has_import t src_hash) (Event.looked_up src_hash)
    if dup then archive_duplicate path else import_file path src_hash

  unfoldable pub process_file : Bytes → M (Unit {0})
  process_file path = do
    emit Event.detected
    src_hash ← source_hash path
    if is_empty src_hash then move_to_dead_letter path else dedup path src_hash
