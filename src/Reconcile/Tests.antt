-- ===== src/Reconcile/Tests.antt =====
-- Tests of src/reconcile.cpp, and the theorem at a concrete directory.
use autodngconverter.Base.{◌+◌, ◌≤◌, ◌<◌, ◌≡◌, refl, arith, true, false, some, [], ◌∷◌, All, codes}
use autodngconverter.Reconcile.{
  Entry, Services, Trace, reconcile_library, scan_dir, visit, visit_numbered, insert_placeholder,
  number_of, reserve,
}
use autodngconverter.Reconcile.Reserved.{last, numbered, reconcile_library-last}

-- Every name has the number 3, and numbers are allocated one after the other.
abbrev services : Services
services = record {
  matched = λ name. some 3;
  has_source_path = λ t path. false;
  sha256_file = λ t path. codes "abc";
  insert_import = λ t r. 1;
  allocate_sequence = λ t. last t + 1;
}

abbrev output : Entry
output = record {
  name = codes "IMG_3.dng";
  path = codes "/out/2026/IMG_3.dng";
  parent = codes "/out/2026";
  regular = true;
}

three : last (reconcile_library services (codes "/out") (output ∷ []) [] [] []).trace ≡ 3
unfolding reconcile_library scan_dir visit visit_numbered insert_placeholder number_of reserve
three = refl

ascends : (u : Trace) → last u < last u + 1
ascends u = omega arith

reconcile_library-last_example :
    let final = last (reconcile_library services (codes "/out") (output ∷ []) [] [] []).trace in
    All (λ e. numbered services e ≤ final) (output ∷ []) × All (λ e. numbered services e ≤ final) []
reconcile_library-last_example =
    reconcile_library-last services (codes "/out") (output ∷ []) [] [] [] ascends
