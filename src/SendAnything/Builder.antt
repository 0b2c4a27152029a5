-- ===== src/SendAnything/Builder.antt =====
-- cmd/send-anything/app/server.go: the file that is being received, and the received items.
use aion_core.Prelude.{
  ℕ, ◌+◌, ◌%◌, ◌^◌, String, Bool, true, false, ◌&&◌, List, [], ◌∷◌, ◌++◌, map, length, ◌==◌, Result,
  ok, err, ◌≡◌, ◌↔◌, arith,
}
use aion_core.Filepath.{join}
use aion_core.Kanban.Types.{Bytes, FileInfo}
use aion_core.SendAnything.Outside.{Os, Fault, create_failed, write_failed}

pub record ReceivingFileBuilder : Type 0 where
  pub rel_path : String
  pub size : ℕ
  pub file_stack : Bytes
  pub expect_ref_num : ℕ

-- an `int32` that is counted up
abbrev pub u32 : ℕ → ℕ
u32 n = n % 2 ^ 32

unfoldable pub new_receiving_file_builder : FileInfo → ReceivingFileBuilder
new_receiving_file_builder f_info = record {
  rel_path = join f_info.rel_dir f_info.name;
  size = f_info.size;
  file_stack = [];
  expect_ref_num = 0;
}

unfoldable pub enqueue : ReceivingFileBuilder → Bytes → ReceivingFileBuilder
enqueue fb content = record fb {
  file_stack = fb.file_stack ++ content;
  expect_ref_num = u32 (fb.expect_ref_num + 1);
}

module _ {S : Type 0} (os : Os S) where
  written : S → Bool → Result Fault (Unit {0}) × S
  written s true = (ok tt, s)
  written s false = (err write_failed, s)

  write_to : String → Bytes → S × Bool → Result Fault (Unit {0}) × S
  unfolding written
  write_to path b (s, false) = (err create_failed, s)
  write_to path b (s, true) = let (s', done) = os.write path b s in written s' done

  -- Its write to `expect_ref_num` is not modelled: nothing reads the builder afterwards.
  unfoldable pub dequeue : ReceivingFileBuilder → String → S → Result Fault (Unit {0}) × S
  unfolding write_to
  dequeue fb root_path s =
      let path = join root_path fb.rel_path in write_to path fb.file_stack (os.create path s)

pub record OutputFileInfo : Type 0 where
  pub dir_name : String
  pub path : String

pub record OutputDirInfo : Type 0 where
  pub file_cnt : ℕ
  pub dir_name : String
  pub path : String
  pub files : List OutputFileInfo

pub record OutputItemInfo : Type 0 where
  pub files : List OutputFileInfo
  pub dirs : List OutputDirInfo

abbrev pub new_output_item_info : OutputItemInfo
new_output_item_info = record { files = []; dirs = [] }

unfoldable pub list_items : OutputItemInfo → List String
list_items i = map (λ d. d.path) i.dirs ++ map (λ f. f.path) i.files

sum_file_cnt : List OutputDirInfo → ℕ
sum_file_cnt [] = 0
sum_file_cnt (d ∷ dirs) = d.file_cnt + sum_file_cnt dirs

unfoldable pub received_file_cnt : OutputItemInfo → ℕ
unfolding sum_file_cnt
received_file_cnt i = sum_file_cnt i.dirs + length i.files

-- string(a) == string(b)
abbrev pub bytes_eq : Bytes → Bytes → Bool
bytes_eq [] [] = true
bytes_eq [] (y ∷ ys) = false
bytes_eq (x ∷ xs) [] = false
bytes_eq (x ∷ xs) (y ∷ ys) = x == y && bytes_eq xs ys

pub bytes_eq_iff : (xs ys : Bytes) → (bytes_eq xs ys ≡ true) ↔ (xs ≡ ys)
bytes_eq_iff [] [] = ground arith
bytes_eq_iff [] (y ∷ ys) = ground arith
bytes_eq_iff (x ∷ xs) [] = ground arith
bytes_eq_iff (x ∷ xs) (y ∷ ys) = ground (arith, bytes_eq_iff xs ys)
