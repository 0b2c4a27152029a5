-- ===== src/SendAnything/Take.antt =====
-- client.go and baggage/content.go: the files of a path that may be sent.
use aion_core.Prelude.{
  ℕ, String, Bool, true, false, Option, none, some, List, [], ◌∷◌, ◌++◌, if◌then◌else◌, Result, ok,
  err, ◌>>=◌,
}
use aion_core.Filepath.{abs, split, has_prefix}
use aion_core.SendAnything.Outside.{
  Mode, directory, regular, irregular, Fault, not_found, open_failed, not_sendable,
  unknown_file_type,
}
use aion_core.SendAnything.Receive.{get_abs_path}
use aion_core.SendAnything.Baggage.{OpenFile, BaggageFile}

-- The files of the sending machine, which do not change while they are sent: the working
-- directory, os.Stat with the size, os.Open, and the entries that filepath.Walk visits below a
-- path (`none` if the walk itself fails).
pub record Source : Type 0 where
  pub cwd : String
  pub stat : String → Option (Mode × ℕ)
  pub open_file : String → Option OpenFile
  pub walk : String → Option (List (String × Mode))

module _ (source : Source) where
  new_baggage : String → Bool → ℕ → Result Fault BaggageFile
  new_baggage path hold_dir_info size = elim (source.open_file path) [
    | none ↦ err open_failed
    | some o ↦
        let (d, n) = split path in
        ok (record {
          file = some o;
          file_name = n;
          file_dir = if hold_dir_info then d else ".";
          size = size;
          hash = [];
        })
  ]

  -- `createFileInfo` of content.go
  unfoldable pub create_baggage : String → Bool → Result Fault BaggageFile
  unfolding new_baggage
  create_baggage rel_path hold_dir_info =
      let path = abs source.cwd rel_path in
      elim (source.stat path) [
        | none ↦ err not_found
        | some (regular, size) ↦ new_baggage path hold_dir_info size
        | some (_, size) ↦ err unknown_file_type
      ]

  -- Every path is tried; one error fails the list.
  unfoldable pub create_files_info : List String → Bool → Result Fault (List BaggageFile)
  unfolding create_baggage
  create_files_info [] hold_dir_info = ok []
  create_files_info (p ∷ paths) hold_dir_info = do
    f ← create_baggage p hold_dir_info
    rest ← create_files_info paths hold_dir_info
    ok (f ∷ rest)

  -- What the walk function does with an entry: directories are entered, other things than files
  -- are an error.
  walked : List (String × Mode) → Result Fault (List String)
  walked [] = ok []
  walked ((p, directory) ∷ l) = walked l
  walked ((p, regular) ∷ l) = do rest ← walked l; ok (abs source.cwd p ∷ rest)
  walked ((p, irregular) ∷ l) = err unknown_file_type

  unfoldable pub get_file_path_all_in_tree : String → Result Fault (List String)
  unfolding walked
  get_file_path_all_in_tree root = elim (source.walk (abs source.cwd root)) [
    | none ↦ err not_found
    | some l ↦ walked l
  ]

  unfoldable pub create_files_info_by_dir : String → Result Fault (List BaggageFile)
  unfolding get_file_path_all_in_tree create_files_info
  create_files_info_by_dir path = do
    paths ← get_file_path_all_in_tree path
    create_files_info paths true

  unfoldable pub is_sendable : String → String → Bool
  is_sendable target rel_path_from =
      has_prefix (abs source.cwd target) (abs source.cwd rel_path_from)

  single : Result Fault BaggageFile → Result Fault (List BaggageFile)
  single r = do f ← r; ok (f ∷ [])

  files_of : String → Option (Mode × ℕ) → Result Fault (List BaggageFile)
  unfolding create_files_info_by_dir create_baggage single
  files_of path none = err not_found
  files_of path (some (directory, size)) = create_files_info_by_dir path
  files_of path (some (regular, size)) = single (create_baggage path false)
  files_of path (some (irregular, size)) = err unknown_file_type

  take_path : String → String → Result Fault (List BaggageFile)
  unfolding is_sendable files_of
  take_path rel_path_from rel_path =
      let path = get_abs_path rel_path_from rel_path in
      if is_sendable path rel_path_from then files_of path (source.stat path) else err not_sendable

  -- `takeFiles`, which every caller gives one list.
  unfoldable pub take_files : String → List String → Result Fault (List BaggageFile)
  unfolding take_path
  take_files rel_path_from [] = ok []
  take_files rel_path_from (p ∷ paths) = do
    fs ← take_path rel_path_from p
    rest ← take_files rel_path_from paths
    ok (fs ++ rest)
