-- ===== src/Reconcile.antt =====
-- src/reconcile.cpp. `matched` is the regular expression and `strtoll` on its group; the store and the
-- digest answer by the history of the calls, newest call first. A directory is given by the entries
-- that its recursive listing finds, none where the root is empty or does not exist.
pub mod Reserved
mod Tests
use autodngconverter.Base.{
  ℕ, zero, suc, ◌+◌, Bool, true, false, not, Option, none, some, List, [], ◌∷◌, ◌++◌, Bytes, codes,
  length, drop, to_string, ltb, leb, ◌==◌, if◌then◌else◌,
}
use autodngconverter.Pipeline.Types.{ImportRecord, empty_record, legacy}

pub record Entry : Type 0 where
  pub name : Bytes
  pub path : Bytes
  pub parent : Bytes
  pub regular : Bool

pub data Event : Type 0 where
  asked : Bytes → Bool → Event
  hashed : Bytes → Bytes → Event
  inserted : ImportRecord → ℕ → Event
  allocated : ℕ → Event

abbrev pub Trace : Type 0
Trace = List Event

pub record Services : Type 0 where
  pub matched : Bytes → Option ℕ
  pub has_source_path : Trace → Bytes → Bool
  pub sha256_file : Trace → Bytes → Bytes
  pub insert_import : Trace → ImportRecord → ℕ
  pub allocate_sequence : Trace → ℕ

-- The counters of the scan, and the calls.
pub record Progress : Type 0 where
  pub max_n : ℕ
  pub found : ℕ
  pub inserted_count : ℕ
  pub trace : Trace

unfoldable pub placeholder : Bytes → Entry → ℕ → Bytes → ImportRecord
placeholder root e n hash = record empty_record {
  sequence_id = n;
  sequence_name = codes "IMG_" ++ to_string n;
  source_hash = codes "legacy:IMG_" ++ to_string n;
  output_path = e.path;
  output_hash = hash;
  camera_model = codes "legacy";
  folder_schema =
      if ltb (length root) (length e.parent) then drop (length root + 1) e.parent else [];
  conversion_settings = codes "{}";
  status = legacy;
}

module _ (sv : Services) where
  unfoldable pub insert_placeholder : Bytes → Entry → ℕ → Progress → Progress
  unfolding placeholder
  insert_placeholder root e n p =
      let hash = sv.sha256_file p.trace e.path in
      let t = hashed e.path hash ∷ p.trace in
      let r = placeholder root e n hash in
      let id = sv.insert_import t r in
      record p {
        inserted_count = if id == 0 then p.inserted_count else p.inserted_count + 1;
        trace = inserted r id ∷ t;
      }

  unfoldable pub visit_numbered : Bytes → Entry → ℕ → Progress → Progress
  unfolding insert_placeholder
  visit_numbered root e n p =
      let known = sv.has_source_path p.trace e.path in
      let q = record p {
        max_n = if ltb p.max_n n then n else p.max_n;
        found = p.found + 1;
        trace = asked e.path known ∷ p.trace;
      } in
      if known then q else insert_placeholder root e n q

  -- The number of a regular file whose name has the form of an output.
  unfoldable pub number_of : Entry → Option ℕ
  number_of e = if e.regular then sv.matched e.name else none

  unfoldable pub visit : Bytes → Entry → Option ℕ → Progress → Progress
  unfolding visit_numbered
  visit root e none p = p
  visit root e (some n) p = visit_numbered root e n p

  unfoldable pub scan_dir : Bytes → List Entry → Progress → Progress
  unfolding visit number_of
  scan_dir root [] p = p
  scan_dir root (e ∷ es) p = scan_dir root es (visit root e (number_of e) p)

  -- The rounds that are left of the loop that reserves the numbers up to the limit.
  unfoldable pub reserve : ℕ → ℕ → Trace → Trace
  reserve zero limit t = t
  reserve (suc k) limit t =
      let id = sv.allocate_sequence t in
      let rest = reserve k limit (allocated id ∷ t) in
      if id == 0 then allocated id ∷ t else if leb limit id then allocated id ∷ t else rest

  unfoldable pub reconcile_library : Bytes → List Entry → Bytes → List Entry → Trace → Progress
  unfolding scan_dir reserve
  reconcile_library output outputs archive archived t =
      let p = scan_dir archive archived (
        scan_dir output outputs (record { max_n = 0; found = 0; inserted_count = 0; trace = t })) in
      record p { trace = reserve p.max_n p.max_n p.trace }
