-- ===== src/Worker/Process/Ownership.antt =====
-- Who owns the file of a pass of `ProcessFile` of src/worker.cpp when the pass is over, and what the
-- pass leaves alone.
use autodngconverter.Base.{
  ℕ, ◌≡◌, ◌≢◌, refl, false, Option, none, some, Bytes, bytes_eq_instance, lookup, contains,
  contains-erase_self, contains-erase_ne, ◌∙◌, Map, insert, Bool-cases, inl, inr,
}
use autodngconverter.Config.{Config}
use autodngconverter.Pipeline.Types.{fingerprint_eq, ExifResult, FastFingerprint}
use autodngconverter.Worker.State.{FpEntry, Impl}
use autodngconverter.Worker.Machine.{Services, update}
use autodngconverter.Worker.Machine.Rules.{
  Rely, Keeps, Ends, Ends-bind, Ends-bind_Keeps, Ends-if, Ends-update,
}
use autodngconverter.Worker.Process.{
  release, forget_failures, count_failure, entry_print, use_entry, cache_hit, cache_store,
  move_to_dead_letter, archive_duplicate, convert, import_file, dedup, process_file,
}
use autodngconverter.Worker.Process.Keeps.{IsKept, Keeps-process_file, Keeps-count_and_bury}

-- No thread owns the file.
abbrev pub IsReleased : Bytes → Impl → Type 0
IsReleased path i = contains path i.inflight ≡ false

-- A look into the fingerprint cache changes nothing else.
module _ (path : Bytes) (fp : FastFingerprint) (now : ℕ) (i : Impl) where
  use_entry_cache :
      (o : Option FpEntry)
      → (m : Map Bytes FpEntry) × ((use_entry path fp now i o).1 ≡ record i { fp_cache = m })
  unfolding use_entry
  use_entry_cache none = (i.fp_cache, refl)
  use_entry_cache (some e) = elim (Bool-cases (fingerprint_eq (entry_print e) fp)) [
    | inl same ↦ (insert path (record e { last_seen = now }) i.fp_cache, rw same)
    | inr other ↦ (i.fp_cache, rw other)
  ]

  cache_hit_cache :
      (P : Impl → Type 0)
      → ((m : Map Bytes FpEntry) → P (record i { fp_cache = m }))
      → P (cache_hit path fp now i).1
  unfolding cache_hit
  cache_hit_cache P h = let (m, e) = use_entry_cache (lookup path i.fp_cache) in rw e (h m)

IsReleased-IsKept : (cfg : Config) (path : Bytes) → IsKept cfg path (IsReleased path)
unfolding release forget_failures count_failure cache_store
IsReleased-IsKept cfg path = record {
  by_release = λ i h. contains-erase_self path i.inflight;
  by_forget = λ i h. h;
  by_count = λ i h. h;
  by_hit = λ fp now i h. cache_hit_cache path fp now i (IsReleased path) (λ m. h);
  by_store = λ fp hash now i h. h;
}

module _ (sv : Services) (cfg : Config) (path : Bytes) (rely : Rely sv (IsReleased path)) where
  Ends-release : Ends (IsReleased path) (update sv (release path))
  unfolding release
  Ends-release = Ends-update sv (release path) (λ i. contains-erase_self path i.inflight)

  Ends-move_to_dead_letter : Ends (IsReleased path) (move_to_dead_letter sv cfg path)
  unfolding move_to_dead_letter
  Ends-move_to_dead_letter =
      Ends-bind_Keeps _ _ Ends-release
        (λ _. Keeps-count_and_bury sv cfg path rely (IsReleased-IsKept cfg path))

  ruleset ends_rules = (Ends-bind, Ends-if, Ends-release, Ends-move_to_dead_letter)

  Ends-archive_duplicate : Ends (IsReleased path) (archive_duplicate sv cfg path)
  unfolding archive_duplicate
  Ends-archive_duplicate = search ends_rules depth 12

  Ends-convert :
      (hash : Bytes) (ex : ExifResult) (seq : ℕ × Bytes)
      → Ends (IsReleased path) (convert sv cfg path hash ex seq)
  unfolding convert
  Ends-convert hash ex seq = search ends_rules depth 12

  Ends-import_file : (hash : Bytes) → Ends (IsReleased path) (import_file sv cfg path hash)
  unfolding import_file
  Ends-import_file hash = search (ends_rules, Ends-convert) depth 12

  Ends-dedup : (hash : Bytes) → Ends (IsReleased path) (dedup sv cfg path hash)
  unfolding dedup
  Ends-dedup hash = search (ends_rules, Ends-archive_duplicate, Ends-import_file) depth 12

  -- On every branch of the pass, errors included, the file is no longer owned when the pass is over,
  -- if no other thread takes it in the meantime.
  pub process_file-IsReleased : Ends (IsReleased path) (process_file sv cfg path)
  unfolding process_file
  process_file-IsReleased = search (ends_rules, Ends-dedup) depth 12

-- The queue, the seen map, the reconversions and the ownership of all other files are as given.
pub record IsUntouched (path : Bytes) (given : Impl) (i : Impl) : Type 0 where
  pub files : i.files ≡ given.files
  pub seen : i.seen ≡ given.seen
  pub depth : i.queue_depth ≡ given.queue_depth
  pub reconverts : i.reconverts ≡ given.reconverts
  pub inflight :
      (other : Bytes) → other ≢ path → contains other i.inflight ≡ contains other given.inflight

IsUntouched-IsKept :
    (cfg : Config) (path : Bytes) (given : Impl) → IsKept cfg path (IsUntouched path given)
IsUntouched-IsKept cfg path given = record {
  by_release = λ i h.
      unfold release in
      record {
        files = h.files;
        seen = h.seen;
        depth = h.depth;
        reconverts = h.reconverts;
        inflight = λ o n. contains-erase_ne path o i.inflight n ∙ h.inflight o n;
      };
  by_forget = λ i h. unfold forget_failures in same i h;
  by_count = λ i h. unfold count_failure in same i h;
  by_hit = λ fp now i h. cache_hit_cache path fp now i (IsUntouched path given) (λ m. same i h);
  by_store = λ fp hash now i h. unfold cache_store in same i h;
}
  where
    same :
        (i : Impl) {c : Map Bytes ℕ} {f : Map Bytes FpEntry}
        → IsUntouched path given i
        → IsUntouched path given (record i { fail_counts = c; fp_cache = f })
    same i h = record {
      files = h.files;
      seen = h.seen;
      depth = h.depth;
      reconverts = h.reconverts;
      inflight = h.inflight;
    }

-- A pass over a file changes neither the queue, the seen map and the reconversions nor the ownership
-- of any other file, if the other threads change none of them in the meantime.
pub process_file-IsUntouched :
    (sv : Services) (cfg : Config) (path : Bytes) (given : Impl)
    → Rely sv (IsUntouched path given)
    → Keeps (IsUntouched path given) (process_file sv cfg path)
process_file-IsUntouched sv cfg path given rely =
    Keeps-process_file sv cfg path rely (IsUntouched-IsKept cfg path given)
