-- ===== src/Worker/Poll.antt =====
-- The poller of src/worker.cpp: one scan of the watch folder, the expiry of the seen map, and the
-- step by which a worker thread takes a file.
use autodngconverter.Base.{
  ℕ, ◌+◌, ◌-◌, ◌*◌, ◌/◌, Bool, not, ◌&&◌, ◌||◌, Option, none, some, List, [], ◌∷◌, ◌++◌, map, Bytes,
  codes, bytes_eq, bytes_eq_instance, tolower, starts_with, length, drop, insert, contains, Map, ℤ,
  pos_part, neg_part, ltb_ℤ, ltb, leb, ◌==◌, if◌then◌else◌,
}
use autodngconverter.Config.{Config}
use autodngconverter.Worker.State.{Impl}

-- What the scan reads of a directory entry; `age` is the whole seconds since the last write.
pub record DirEntry : Type 0 where
  pub path : Bytes
  pub regular : Bool
  pub age : ℤ

-- The text behind the last `b`, if there is one.
unfoldable pub after_last : ℕ → Bytes → Option Bytes
after_last b [] = none
after_last b (c ∷ s) = elim (after_last b s) [
  | some t ↦ some t
  | none ↦ if c == b then some s else none
]

-- `fs::path::filename` and `fs::path::extension`
unfoldable pub filename : Bytes → Bytes
unfolding after_last
filename path = elim (after_last b'/' path) [ none ↦ path | some t ↦ t ]

extension_behind : Bytes → Bytes
unfolding after_last
extension_behind s = elim (after_last b'.' s) [ none ↦ [] | some t ↦ b'.' ∷ t ]

unfoldable pub extension : Bytes → Bytes
unfolding extension_behind bytes_eq
extension [] = []
extension (c ∷ s) = if bytes_eq (c ∷ s) (codes "..") then [] else extension_behind s

unfoldable pub has_infix : Bytes → Bytes → Bool
unfolding starts_with
has_infix pat [] = starts_with pat []
has_infix pat (c ∷ s) = starts_with pat (c ∷ s) || has_infix pat s

unfoldable pub is_raw : Bytes → Bool
unfolding bytes_eq tolower extension
is_raw name =
    let ext = map tolower (extension name) in
    bytes_eq ext (codes ".nrw")
    || bytes_eq ext (codes ".nef")
    || bytes_eq ext (codes ".cr2")
    || bytes_eq ext (codes ".arw")

-- The last `n` bytes of a name that has as many.
abbrev tail_is : ℕ → Bytes → Bytes → Bool
tail_is n name t = bytes_eq (drop (length name - n) name) t

unfoldable pub is_temporary : Bytes → Bool
unfolding bytes_eq has_infix
is_temporary name =
    has_infix (codes ".digikamtempfile.") name
    || (leb 4 (length name) && (tail_is 4 name (codes ".part") || tail_is 4 name (codes ".tmp")))
    || (leb 9 (length name) && tail_is 9 name (codes ".download"))

unfoldable pub eligible : Config → DirEntry → Bool
unfolding is_raw is_temporary filename
eligible cfg e =
    let name = filename e.path in
    e.regular && is_raw name && not (is_temporary name) && not (ltb_ℤ e.age cfg.debounce_sec)

-- The locked part of the loop over the entries: is the file queued, and the new state.
unfoldable pub enqueue : ℕ → Bytes → Impl → Impl
enqueue now path i =
    if contains path i.inflight then i else if contains path i.seen then i else record i {
      seen = insert path now i.seen;
      files = i.files ++ path ∷ [];
      queue_depth = i.queue_depth + 1;
    }

unfoldable pub poll_entry : Config → ℕ → DirEntry → Impl → Impl
unfolding enqueue eligible
poll_entry cfg now e i = if eligible cfg e then enqueue now e.path i else i

unfoldable pub scan : Config → ℕ → List DirEntry → Impl → Impl
unfolding poll_entry
scan cfg now [] i = i
scan cfg now (e ∷ es) i = scan cfg now es (poll_entry cfg now e i)

abbrev pub second : ℕ
second = 1000000000

-- `now - it->second > ttl`, with a TTL of twice the poll interval.
unfoldable pub is_expired : Config → ℕ → ℕ → Bool
is_expired cfg now at =
    ltb (at + 2 * pos_part cfg.poll_interval_sec * second)
      (now + 2 * neg_part cfg.poll_interval_sec * second)

unfoldable pub unexpired : Config → ℕ → Map Bytes ℕ → Map Bytes ℕ
unfolding is_expired
unexpired cfg now [] = []
unexpired cfg now ((k, at) ∷ m) =
    let rest = unexpired cfg now m in if is_expired cfg now at then rest else (k, at) ∷ rest

unfoldable pub cleanup_seen_ttl : Config → ℕ → Impl → Impl
unfolding unexpired
cleanup_seen_ttl cfg now i = record i { seen = unexpired cfg now i.seen }

-- The local `last_scan` of `PollLoop`, and the state.
pub record Poller : Type 0 where
  pub last_scan : ℕ
  pub impl : Impl

-- `elapsed >= cfg_.poll_interval_sec`
unfoldable pub is_due : Config → ℕ → ℕ → Bool
is_due cfg now last =
    leb (pos_part cfg.poll_interval_sec) ((now - last) / second + neg_part cfg.poll_interval_sec)

scan_watch : Config → ℕ → Option (List DirEntry) → Impl → Impl
unfolding scan
scan_watch cfg now none i = i
scan_watch cfg now (some entries) i = scan cfg now entries i

-- One round of `PollLoop`: `watch` is the content of the watch folder, if it exists, and `later` is
-- the clock when the seen map is cleaned.
unfoldable pub poll_round : Config → ℕ → Option (List DirEntry) → ℕ → Poller → Poller
unfolding scan_watch cleanup_seen_ttl is_due
poll_round cfg now watch later p =
    if is_due cfg now p.last_scan
    then record {
      last_scan = now;
      impl = cleanup_seen_ttl cfg later (scan_watch cfg now watch p.impl);
    }
    else record p { impl = cleanup_seen_ttl cfg later p.impl }

-- The locked part of `WorkerThread`: the front of the queue is owned from here on.
unfoldable pub taken : Bytes → List Bytes → Impl → Impl
taken path rest i = record i {
  files = rest;
  queue_depth = i.queue_depth - 1;
  active_workers = i.active_workers + 1;
  inflight = insert path tt i.inflight;
}

take_front : List Bytes → Impl → Option (Bytes × Impl)
unfolding taken
take_front [] i = none
take_front (path ∷ rest) i = some (path, taken path rest i)

unfoldable pub take_file : Impl → Option (Bytes × Impl)
unfolding take_front
take_file i = take_front i.files i
