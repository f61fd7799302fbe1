-- ===== src/Util/Move/Tests.antt =====
-- Tests of `move_file` of src/util.cpp, and the theorems on a file system without rename.
use autodngconverter.Base.{◌≡◌, refl, true, false, some, [], if◌then◌else◌, ltb}
use autodngconverter.Util.Move.{
  Files, copy_loop, sync_opened, remove_source, copy_whole, conclude, copy_to, copy_across,
  move_file,
}
use autodngconverter.Util.Move.Safety.{IsSafe, move_file-IsSafe}

-- Another device: five bytes are copied, at most three at once.
abbrev across : Files
across = record {
  rename = λ t. false;
  open_file = λ t f. true;
  fstat = λ t. some 5;
  copy_file_range = λ t n. if ltb 3 n then 3 else n;
  copy_file = λ t. true;
  remove = λ t. true;
}

moved : (move_file across []).0 ≡ true
unfolding move_file copy_across copy_to conclude copy_whole remove_source sync_opened copy_loop
moved = refl

move_file-IsSafe_example : IsSafe (move_file across []).1
move_file-IsSafe_example = move_file-IsSafe across [] tt
