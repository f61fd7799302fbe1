-- ===== src/Rotation.antt =====
-- src/rotation.h and src/rotation.cpp. The lock table of the store and `std::system` answer by the
-- history of the calls, which is the trace, newest call first; so do the intents that other threads
-- queue while the dispatch loop has given up its mutex. Deadlines are milliseconds.
pub mod Laws
pub mod Round
mod Tests
use autodngconverter.Base.{
  ℕ, zero, suc, ◌+◌, Bool, true, false, not, List, [], ◌∷◌, ◌++◌, Bytes, codes, is_empty, nat_eq,
  bytes_eq, Map, insert, erase, lookup, none, some, ◌==◌, ℤ, pos, pos_part, leb_ℤ, leb, show_int,
  if◌then◌else◌,
}
use autodngconverter.Config.{Config}

pub record PendingRot : Type 0 where
  pub orientation : ℤ
  pub dng_path : Bytes
  pub client_id : Bytes
  pub deadline : ℕ

-- `RotationManager::Impl`, and the settings that the constructor derives.
pub record Manager : Type 0 where
  pub pending : Map ℕ PendingRot
  pub stopped : Bool
  pub exiftool_bin : Bytes
  pub grace_ms : ℕ
  pub immich_url : Bytes
  pub digikam_rescan : Bool

unfoldable pub manager : Config → Manager
unfolding bytes_eq
manager cfg = record {
  pending = [];
  stopped = false;
  exiftool_bin = if is_empty cfg.exiftool_bin then codes "exiftool" else cfg.exiftool_bin;
  grace_ms = if leb_ℤ cfg.rotation_grace_ms (pos 0) then 1500 else pos_part cfg.rotation_grace_ms;
  immich_url = cfg.immich_url;
  digikam_rescan = bytes_eq cfg.digikam_rescan (codes "dbus");
}

pub record Intent : Type 0 where
  pub import_id : ℕ
  pub dng_path : Bytes
  pub orientation : ℤ
  pub client_id : Bytes

-- `Queue`: the intent replaces one that is pending for the same import, and its timer starts anew.
unfoldable pub queue : ℕ → Intent → Manager → Manager
queue now r m = record m {
  pending =
      insert r.import_id
        (record {
          orientation = r.orientation;
          dng_path = r.dng_path;
          client_id = r.client_id;
          deadline = now + m.grace_ms;
        })
        m.pending;
}

-- Calls: `AcquireLock` with its answer, a shell command with its exit status, `UpdateOrientation`
-- and `ReleaseLock`.
pub data Event : Type 0 where
  asked : ℕ → Bool → Event
  ran : Bytes → ℕ → Event
  wrote : ℕ → ℤ → Event
  unlocked : ℕ → Event

abbrev pub Trace : Type 0
Trace = List Event

pub record Services : Type 0 where
  pub acquire_lock : Trace → ℕ → Bool
  pub system : Trace → Bytes → ℕ
  -- What was queued during the dispatch that the history ends with, oldest first.
  pub arrived : Trace → Map ℕ PendingRot

-- Intents that are queued one after the other.
abbrev pub insert_all : Map ℕ PendingRot → Map ℕ PendingRot → Map ℕ PendingRot
insert_all [] p = p
insert_all ((id, rot) ∷ rots) p = insert_all rots (insert id rot p)

-- The intent that is found for an import: one that was queued since, or the one from before.
abbrev pub current : ℕ → PendingRot → Map ℕ PendingRot → PendingRot
current id rot later = elim (lookup id later) [ none ↦ rot | some new ↦ new ]

unfoldable pub exiftool_command : Manager → PendingRot → Bytes
exiftool_command m rot =
    m.exiftool_bin
    ++ codes " -Orientation="
    ++ show_int rot.orientation
    ++ codes " -n -overwrite_original_in_place "
    ++ rot.dng_path

unfoldable pub immich_command : Manager → Bytes
immich_command m =
    codes "curl -s -o /dev/null -X POST \""
    ++ m.immich_url
    ++ codes "/api/jobs\" -H \"Content-Type: application/json\" -d '{\"type\":\"sidecar\"}'"

module _ (sv : Services) (m : Manager) where
  unfoldable pub run_command : Bytes → Trace → Trace
  run_command cmd t = ran cmd (sv.system t cmd) ∷ t

  -- The exiftool run; the orientation is recorded if its exit status is 0.
  unfoldable pub write_orientation : ℕ → PendingRot → Trace → Trace
  write_orientation id rot t =
      let rc = sv.system t (exiftool_command m rot) in
      let t' = ran (exiftool_command m rot) rc ∷ t in
      elim rc [ zero ↦ wrote id rot.orientation ∷ t' | suc n ↦ t' ]

  unfoldable pub notify : Trace → Trace
  unfolding run_command
  notify t =
      let t' = if not (is_empty m.immich_url) then run_command (immich_command m) t else t in
      if m.digikam_rescan then run_command (codes "touch /tmp/digikam_rescan.trigger") t' else t'

  unfoldable pub dispatch : ℕ → PendingRot → Trace → Trace
  dispatch id rot t =
      if sv.acquire_lock t id
      then unlocked id ∷ notify (write_orientation id rot (asked id true ∷ t))
      else asked id false ∷ t

  -- The loop over the pending intents when the soonest deadline is reached, with those that were queued
  -- since it began: what stays pending of the first ones, the later ones, and the history. A later
  -- intent takes the place of one that is still to be visited. One for another import is taken not to
  -- be visited, as its deadline is behind `now`, and not to invalidate the iterator, which the insertion
  -- into a hash table does not promise.
  unfoldable pub visit :
      ℕ → Map ℕ PendingRot → Map ℕ PendingRot → Trace → Map ℕ PendingRot × Map ℕ PendingRot × Trace
  visit now [] later t = ([], later, t)
  visit now ((id, rot) ∷ rest) later t = elim (leb (current id rot later).deadline now) [
    | true ↦
        let u = dispatch id (current id rot later) t in
        visit now rest (insert_all (sv.arrived u) (erase id later)) u
    | false ↦
        let (kept, found, u) = visit now rest later t in
        ((id, current id rot later) ∷ kept, found, u)
  ]

  unfoldable pub dispatch_due : ℕ → Map ℕ PendingRot → Trace → Map ℕ PendingRot × Trace
  dispatch_due now p t = let (kept, later, u) = visit now p [] t in (insert_all later kept, u)

  -- One intent of the shutdown: the exit status of exiftool is not read.
  unfoldable pub flush_one : ℕ → PendingRot → Trace → Trace
  unfolding run_command
  flush_one id rot t =
      if sv.acquire_lock t id
      then unlocked id
        ∷ wrote id rot.orientation
        ∷ run_command (exiftool_command m rot) (asked id true ∷ t)
      else asked id false ∷ t

  unfoldable pub flush : Map ℕ PendingRot → Trace → Trace
  flush [] t = t
  flush ((id, rot) ∷ rest) t = flush rest (flush_one id rot t)

-- `Stop`: a second call does nothing.
unfoldable pub stop : Services → Manager → Trace → Manager × Trace
stop sv m t =
    if m.stopped
    then (m, t)
    else (record m { stopped = true; pending = [] }, flush sv m m.pending t)
