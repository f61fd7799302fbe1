-- ===== src/Rotation/Tests.antt =====
-- Tests of src/rotation.cpp, and the theorems at concrete inputs.
use autodngconverter.Base.{ℕ, ◌+◌, ◌≡◌, true, List, [], ◌∷◌, codes, pos, lookup, nat_eq, Map}
use autodngconverter.Config.{default_config}
use autodngconverter.Rotation.{
  PendingRot, Manager, Intent, manager, Services, dispatch, dispatch_due, flush_one,
}
use autodngconverter.Rotation.Laws.{
  queue_all, latest, lookup-queue_all, IsBalanced, dispatch_due-IsBalanced, writes, writes_lem,
}

-- An intent for another import.
abbrev late : PendingRot
late = record {
  orientation = pos 3;
  dng_path = codes "/b.dng";
  client_id = codes "web";
  deadline = 9000;
}

-- The lock is always free, exiftool always fails, and every dispatch is overtaken by an intent.
abbrev failing : Services
failing = record { acquire_lock = λ t id. true; system = λ t cmd. 1; arrived = λ t. (5, late) ∷ [] }

abbrev left : Intent
left = record {
  import_id = 4;
  dng_path = codes "/a.dng";
  orientation = pos 8;
  client_id = codes "web";
}

abbrev right : Intent
right = record left { orientation = pos 6 }

abbrev both : List (ℕ × Intent)
both = (10, left) ∷ (20, right) ∷ []

abbrev start : Manager
start = manager default_config

lookup-queue_all_example :
    lookup 4 (queue_all both start).pending ≡ latest start.grace_ms 4 both (lookup 4 start.pending)
lookup-queue_all_example = lookup-queue_all both start 4

abbrev pending : Map ℕ PendingRot
pending = (queue_all both start).pending

dispatch_due-IsBalanced_example : IsBalanced 4 [] (dispatch_due failing start 5000 pending []).1
dispatch_due-IsBalanced_example = dispatch_due-IsBalanced failing start 4 5000 pending []

abbrev rot : PendingRot
rot = record {
  orientation = pos 6;
  dng_path = codes "/a.dng";
  client_id = codes "web";
  deadline = 0;
}

writes_lem_example :
    (writes 4 (dispatch failing start 4 rot []) ≡ 0 + writes 4 [])
    × (writes 4 (flush_one failing start 4 rot []) ≡ 1 + writes 4 [])
writes_lem_example = writes_lem failing start 4 4 rot []
