-- ===== src/Worker/Process/Keeps.antt =====
-- What a pass of `ProcessFile` of src/worker.cpp keeps and establishes in the shared state.
use autodngconverter.Base.{ℕ, Option, none, some, Bytes, bytes_eq_instance}
use autodngconverter.Config.{Config}
use autodngconverter.Pipeline.Types.{ExifResult, FastFingerprint}
use autodngconverter.Worker.State.{Impl}
use autodngconverter.Worker.Machine.{Services, update, locked}
use autodngconverter.Worker.Machine.Rules.{
  Rely, Keeps, Keeps-update, Keeps-locked, Keeps-pure, keeps_rules,
}
use autodngconverter.Worker.Process.{
  release, forget_failures, count_failure, cache_hit, cache_store, make_dir, move, sha256, bury,
  count_and_bury, move_to_dead_letter, gate, keep_hash, rehash, or_rehash, source_hash,
  archive_duplicate, thumbnail, complete, abandon, convert, import_file, dedup, process_file,
}
use autodngconverter.Worker.Process.Sections.{
  IsConsistent, release-IsConsistent, forget_failures-IsConsistent, count_failure-IsConsistent,
  cache_hit-IsConsistent, cache_store-IsConsistent,
}

-- A statement that the lock sections of a pass over `path` keep.
pub record IsKept (cfg : Config) (path : Bytes) (P : Impl → Type 0) : Type 0 where
  pub by_release : (i : Impl) → P i → P (release path i)
  pub by_forget : (i : Impl) → P i → P (forget_failures path i)
  pub by_count : (i : Impl) → P i → P (count_failure cfg path i).1
  pub by_hit : (fp : FastFingerprint) (now : ℕ) (i : Impl) → P i → P (cache_hit path fp now i).1
  pub by_store :
      (fp : FastFingerprint) (hash : Bytes) (now : ℕ) (i : Impl)
      → P i
      → P (cache_store path fp hash now i)

module _ (sv : Services) (cfg : Config) (path : Bytes) {P : Impl → Type 0} (rely : Rely sv P)
    (kept : IsKept cfg path P) where
  Keeps-release : Keeps P (update sv (release path))
  Keeps-release = Keeps-update sv (release path) rely kept.by_release

  Keeps-forget : Keeps P (update sv (forget_failures path))
  Keeps-forget = Keeps-update sv (forget_failures path) rely kept.by_forget

  Keeps-count : Keeps P (locked sv (count_failure cfg path))
  Keeps-count = Keeps-locked sv (count_failure cfg path) rely kept.by_count

  Keeps-hit : (fp : FastFingerprint) (now : ℕ) → Keeps P (locked sv (cache_hit path fp now))
  Keeps-hit fp now = Keeps-locked sv (cache_hit path fp now) rely (kept.by_hit fp now)

  Keeps-store :
      (fp : FastFingerprint) (hash : Bytes) (now : ℕ)
      → Keeps P (update sv (cache_store path fp hash now))
  Keeps-store fp hash now =
      Keeps-update sv (cache_store path fp hash now) rely (kept.by_store fp hash now)

  Keeps-bury : (n : ℕ) → Keeps P (bury sv cfg path n)
  unfolding bury make_dir move
  Keeps-bury n = search keeps_rules depth 9

  pub Keeps-count_and_bury : Keeps P (count_and_bury sv cfg path)
  unfolding count_and_bury
  Keeps-count_and_bury = search (keeps_rules, Keeps-count, Keeps-bury) depth 9

  Keeps-move_to_dead_letter : Keeps P (move_to_dead_letter sv cfg path)
  unfolding move_to_dead_letter
  Keeps-move_to_dead_letter = search (keeps_rules, Keeps-release, Keeps-count_and_bury) depth 9

  Keeps-gate : Keeps P (gate sv cfg path)
  unfolding gate
  Keeps-gate = search (keeps_rules, Keeps-hit) depth 9

  Keeps-keep_hash : (fp : FastFingerprint) (hash : Bytes) → Keeps P (keep_hash sv cfg path fp hash)
  unfolding keep_hash
  Keeps-keep_hash fp hash = search (keeps_rules, Keeps-store) depth 9

  Keeps-rehash : (fp : FastFingerprint) → Keeps P (rehash sv cfg path fp)
  unfolding rehash sha256
  Keeps-rehash fp = search (keeps_rules, Keeps-keep_hash) depth 9

  Keeps-or_rehash :
      (fp : FastFingerprint) (hit : Option Bytes) → Keeps P (or_rehash sv cfg path fp hit)
  unfolding or_rehash
  Keeps-or_rehash fp none = Keeps-rehash fp
  Keeps-or_rehash fp (some hash) = Keeps-pure hash

  Keeps-source_hash : Keeps P (source_hash sv cfg path)
  unfolding source_hash
  Keeps-source_hash = search (keeps_rules, Keeps-gate, Keeps-or_rehash) depth 9

  Keeps-archive_duplicate : Keeps P (archive_duplicate sv cfg path)
  unfolding archive_duplicate make_dir move
  Keeps-archive_duplicate = search (keeps_rules, Keeps-release, Keeps-forget) depth 9

  Keeps-thumbnail : (dst thumb : Bytes) → Keeps P (thumbnail sv cfg dst thumb)
  unfolding thumbnail
  Keeps-thumbnail dst thumb = search keeps_rules depth 9

  Keeps-complete :
      (hash : Bytes) (ex : ExifResult) (seq : ℕ × Bytes) (folder : Bytes)
      → Keeps P (complete sv cfg path hash ex seq folder)
  unfolding complete make_dir move sha256
  Keeps-complete hash ex seq folder = search (keeps_rules, Keeps-forget, Keeps-thumbnail) depth 14

  Keeps-abandon : Keeps P (abandon sv cfg path)
  unfolding abandon
  Keeps-abandon = search (keeps_rules, Keeps-move_to_dead_letter) depth 9

  Keeps-convert :
      (hash : Bytes) (ex : ExifResult) (seq : ℕ × Bytes) → Keeps P (convert sv cfg path hash ex seq)
  unfolding convert make_dir
  Keeps-convert hash ex seq =
      search (keeps_rules, Keeps-complete, Keeps-abandon, Keeps-release) depth 12

  Keeps-import_file : (hash : Bytes) → Keeps P (import_file sv cfg path hash)
  unfolding import_file
  Keeps-import_file hash = search (keeps_rules, Keeps-move_to_dead_letter, Keeps-convert) depth 12

  Keeps-dedup : (hash : Bytes) → Keeps P (dedup sv cfg path hash)
  unfolding dedup
  Keeps-dedup hash = search (keeps_rules, Keeps-archive_duplicate, Keeps-import_file) depth 12

  pub Keeps-process_file : Keeps P (process_file sv cfg path)
  unfolding process_file
  Keeps-process_file =
      search (keeps_rules, Keeps-source_hash, Keeps-move_to_dead_letter, Keeps-dedup) depth 12

IsConsistent-IsKept : (cfg : Config) (path : Bytes) → IsKept cfg path (IsConsistent cfg)
IsConsistent-IsKept cfg path = record {
  by_release = release-IsConsistent path;
  by_forget = forget_failures-IsConsistent path;
  by_count = count_failure-IsConsistent path;
  by_hit = cache_hit-IsConsistent path;
  by_store = cache_store-IsConsistent path;
}

-- Whatever the services answer, a pass over a file keeps the shared state consistent, if the other
-- threads keep it so meanwhile.
pub process_file-IsConsistent :
    (sv : Services) (cfg : Config) (path : Bytes)
    → Rely sv (IsConsistent cfg)
    → Keeps (IsConsistent cfg) (process_file sv cfg path)
process_file-IsConsistent sv cfg path rely =
    Keeps-process_file sv cfg path rely (IsConsistent-IsKept cfg path)
