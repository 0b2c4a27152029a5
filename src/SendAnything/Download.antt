-- ===== src/SendAnything/Download.antt =====
-- cmd/send-anything/app/server.go: receiving directories, all items of a kanban, and the request of
-- another device. The loops run on fuel, which is one more than the messages of the stream.
use aion_core.Prelude.{
  ℕ, zero, suc, ◌+◌, String, none, some, List, [], ◌∷◌, ◌++◌, length, ◌==◌, if◌then◌else◌, Result,
  ok, err,
}
use aion_core.Filepath.{get_ms_data_path, join}
use aion_core.Kanban.Types.{
  SendKanban, DirInfo, SendContext, sending_file_info, sending_dir_info, end_of_sending_dir, eos,
}
use aion_core.SendAnything.Outside.{
  Codec, Os, Fault, receive_failed, unexpected_code, wrong_count, nil_pointer, out_of_fuel,
}
use aion_core.SendAnything.Builder.{
  OutputFileInfo, OutputDirInfo, OutputItemInfo, new_output_item_info, list_items,
  received_file_cnt, u32,
}
use aion_core.SendAnything.Receive.{Answer, unmarshal, then_on, lacks_dir, receive_file_info}

-- The items of `downloadDirInfo` before any file.
unfoldable pub new_dir : DirInfo → String → OutputDirInfo
new_dir dir_info parent_dir_path = record {
  file_cnt = 0;
  dir_name = dir_info.dir_name;
  path = join parent_dir_path dir_info.dir_name;
  files = [];
}

abbrev pub add_file : OutputFileInfo → OutputDirInfo → OutputDirInfo
add_file f d = record d { files = d.files ++ f ∷ []; file_cnt = d.file_cnt + 1 }

abbrev pub add_item_file : OutputFileInfo → OutputItemInfo → OutputItemInfo
add_item_file f i = record i { files = i.files ++ f ∷ [] }

abbrev pub add_item_dir : OutputDirInfo → OutputItemInfo → OutputItemInfo
add_item_dir d i = record i { dirs = i.dirs ++ d ∷ [] }

-- kContainer.AfterKanban.FileList = l
set_file_list : List String → SendKanban → Result Fault SendKanban
set_file_list l k = elim k.after_kanban [
  | none ↦ err nil_pointer
  | some after ↦ ok (record k { after_kanban = some (record after { file_list = l }) })
]

-- The end of a request that is not an end of stream, as `sending_file_failed` is.
compare_lists : OutputItemInfo → SendKanban → Result Fault SendKanban
compare_lists items k = elim k.after_kanban [
  | none ↦ err nil_pointer
  | some after ↦
      if length (list_items items) == length after.file_list then ok k else err wrong_count
]

module _ {Any S : Type 0} (codec : Codec Any) (os : Os S) where
  -- The loop of `downloadDir`.
  unfoldable pub download_dir_loop :
      ℕ → OutputDirInfo → List (SendContext Any) → S → Answer Any S OutputDirInfo
  download_dir_loop zero d inbox s = (err out_of_fuel, (inbox, s))
  download_dir_loop (suc n) d [] s = (err receive_failed, ([], s))
  download_dir_loop (suc n) d (in_ ∷ inbox) s = elim in_.code [
    | sending_file_info ↦
        then_on (receive_file_info codec os in_ d.path inbox s)
          (λ f inbox' s'. download_dir_loop n (add_file f d) inbox' s')
    | end_of_sending_dir ↦ (ok d, (inbox, s))
    | _ ↦ (err unexpected_code, (inbox, s))
  ]

  unfoldable pub download_dir :
      DirInfo → String → List (SendContext Any) → S → Answer Any S OutputDirInfo
  unfolding download_dir_loop
  download_dir dir_info parent_dir_path inbox s =
      download_dir_loop (suc (length inbox)) (new_dir dir_info parent_dir_path) inbox s

  unfoldable pub receive_dir_info :
      SendContext Any → String → List (SendContext Any) → S → Answer Any S OutputDirInfo
  unfolding download_dir
  receive_dir_info in_ writable_dir_root inbox s =
      elim (unmarshal codec.unmarshal_dir_info in_.context) [
        | err e ↦ (err e, (inbox, s))
        | ok content ↦ download_dir content (join writable_dir_root content.rel_parent_path) inbox s
      ]

  unfoldable pub receive_eos : SendContext Any → OutputItemInfo → Result Fault (Unit {0})
  receive_eos in_ items = elim (unmarshal codec.unmarshal_stream_info in_.context) [
    | err e ↦ err e
    | ok sent ↦ if sent.file_count == u32 (received_file_cnt items) then ok tt else err wrong_count
  ]

  end_of_stream : SendContext Any → OutputItemInfo → SendKanban → Result Fault SendKanban
  unfolding receive_eos set_file_list
  end_of_stream in_ items k = elim (receive_eos in_ items) [
    | err e ↦ err e
    | ok x ↦ set_file_list (list_items items) k
  ]

  -- The loop of `downloadAnything`. It answers the kanban with the received items.
  unfoldable pub download_loop :
      ℕ
      → OutputItemInfo
      → SendKanban
      → String
      → List (SendContext Any)
      → S
      → Answer Any S SendKanban
  unfolding end_of_stream compare_lists
  download_loop zero items k path inbox s = (err out_of_fuel, (inbox, s))
  download_loop (suc n) items k path [] s = (err receive_failed, ([], s))
  download_loop (suc n) items k path (in_ ∷ inbox) s = elim in_.code [
    | sending_file_info ↦
        then_on (receive_file_info codec os in_ path inbox s)
          (λ f inbox' s'. download_loop n (add_item_file f items) k path inbox' s')
    | sending_dir_info ↦
        then_on (receive_dir_info in_ path inbox s)
          (λ d inbox' s'. download_loop n (add_item_dir d items) k path inbox' s')
    | eos ↦ (end_of_stream in_ items k, (inbox, s))
    | _ ↦ (compare_lists items k, (inbox, s))
  ]

  unfoldable pub download_anything :
      SendKanban → String → List (SendContext Any) → S → Answer Any S SendKanban
  unfolding download_loop
  download_anything k output_dir_path inbox s =
      download_loop (suc (length inbox)) new_output_item_info k output_dir_path inbox s

  make_one_dir : String → S → S
  make_one_dir path s = if lacks_dir (os.stat path s) then os.mkdir path s else s

  -- The kanban, the directory of its files, and the files after that directory was made.
  unfoldable pub receive_sending_kanban :
      SendContext Any → String → S → Result Fault (SendKanban × String) × S
  unfolding get_ms_data_path make_one_dir
  receive_sending_kanban in_ dir_path s = elim (unmarshal codec.unmarshal_send_kanban in_.context) [
    | err e ↦ (err e, s)
    | ok k ↦
        let path = get_ms_data_path dir_path k.next_service k.next_number in
        (ok (k, path), make_one_dir path s)
  ]
