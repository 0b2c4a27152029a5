-- ===== src/SendAnything/Folder.antt =====
-- cmd/send-anything/app/client.go: sending directories, and a kanban with all its files.
use aion_core.Prelude.{
  ℕ, ◌+◌, ◌-◌, ◌^◌, String, Option, none, some, List, [], ◌∷◌, ◌++◌, length, if◌then◌else◌, ok, err,
}
use aion_core.Filepath.{clean, join, base, dir, rel, is_abs}
use aion_core.Kanban.Types.{
  Bytes, SendKanban, SendContext, UploadRequestCode, sending_kanban, sending_dir_info,
  end_of_sending_dir, eos,
}
use aion_core.SendAnything.Outside.{
  Codec, Link, directory, regular, irregular, Fault, not_found, pack_failed, nil_pointer,
}
use aion_core.SendAnything.Builder.{u32}
use aion_core.SendAnything.Receive.{get_abs_path}
use aion_core.SendAnything.Baggage.{BaggageFile, path}
use aion_core.SendAnything.Send.{
  Sent, and_then, SentFileInfo, answer, send_packed, send_to_server_notify_failure, send_file,
}
use aion_core.SendAnything.Take.{Source, take_files}

pub record SentDirInfo : Type 0 where
  pub file_cnt : ℕ
  pub dir_name : String
  pub rel_parent_dir_path : String
  pub files : List SentFileInfo

pub record SentItemInfo : Type 0 where
  pub files : List SentFileInfo
  pub dirs : List SentDirInfo

abbrev pub new_sent_item_info : SentItemInfo
new_sent_item_info = record { files = []; dirs = [] }

count_dirs : List SentDirInfo → ℕ
count_dirs [] = 0
count_dirs (d ∷ dirs) = d.file_cnt + count_dirs dirs

unfoldable pub sent_file_cnt : SentItemInfo → ℕ
unfolding count_dirs
sent_file_cnt i = count_dirs i.dirs + length i.files

-- filepath.Rel without an error, or the error
abbrev rel_or_error : {L : Type 0} → Option String → L → Sent L String
rel_or_error none l = (err not_found, l)
rel_or_error (some p) l = (ok p, l)

module _ {Any L : Type 0} (codec : Codec Any) (link : Link Any L) (md5 : Bytes → Bytes)
    (source : Source) where
  unfoldable pub create_dir_info : SentDirInfo → ℕ → UploadRequestCode → L → Sent L (Unit {0})
  create_dir_info d file_cnt code l =
      send_packed codec link md5 code
        (codec.new_dir_info (record {
          file_cnt = file_cnt;
          dir_name = d.dir_name;
          rel_parent_path = d.rel_parent_dir_path;
          files = [];
        }))
        l

  unfoldable pub send_dir_info : SentDirInfo → ℕ → L → Sent L (Unit {0})
  unfolding create_dir_info
  send_dir_info d file_cnt l = create_dir_info d file_cnt sending_dir_info l

  unfoldable pub send_end_of_dir : SentDirInfo → L → Sent L (Unit {0})
  unfolding create_dir_info
  send_end_of_dir d l = create_dir_info d d.file_cnt end_of_sending_dir l

  -- The loop of `sendDir` over the files.
  unfoldable pub send_dir_loop : String → List BaggageFile → SentDirInfo → L → Sent L SentDirInfo
  send_dir_loop dir_path [] d l = (ok d, l)
  send_dir_loop dir_path (f ∷ files) d l =
      and_then (rel_or_error (rel dir_path (path f)) l) (λ rel_path l0.
        and_then (send_file codec link md5 (some f) (dir rel_path) l0) (λ info l1.
          send_dir_loop dir_path files
            (record d { file_cnt = d.file_cnt + 1; files = d.files ++ info ∷ [] }) l1))

  send_taken_dir : String → String → List BaggageFile → L → Sent L SentDirInfo
  unfolding send_dir_info send_end_of_dir send_dir_loop
  send_taken_dir dir_path aion_home files l =
      let d : SentDirInfo = record {
        file_cnt = 0;
        dir_name = base dir_path;
        rel_parent_dir_path = ".";
        files = [];
      } in
      let full = if is_abs dir_path then dir_path else join aion_home dir_path in
      and_then (send_dir_info d (length files) l) (λ x l1.
        and_then (send_dir_loop full files d l1)
          (λ done l2. and_then (send_end_of_dir done l2) (λ y l3. (ok done, l3))))

  unfoldable pub send_dir : String → String → L → Sent L SentDirInfo
  unfolding send_taken_dir
  send_dir dir_path aion_home l = elim (take_files source aion_home (dir_path ∷ [])) [
    | err e ↦ (err e, l)
    | ok files ↦ send_taken_dir dir_path aion_home files l
  ]

  -- The path of a file below `aion_home`.
  rel_to : String → String → Option String
  rel_to aion_home p = if is_abs p then rel aion_home p else some p

  unfoldable pub send_files_loop : String → List BaggageFile → L → Sent L (List SentFileInfo)
  unfolding rel_to
  send_files_loop aion_home [] l = (ok [], l)
  send_files_loop aion_home (f ∷ files) l =
      and_then (rel_or_error (rel_to aion_home (path f)) l) (λ rel_path l0.
        and_then (send_file codec link md5 (some f) (dir rel_path) l0) (λ info l1.
          and_then (send_files_loop aion_home files l1) (λ rest l2. (ok (info ∷ rest), l2))))

  unfoldable pub send_files : List String → String → L → Sent L (List SentFileInfo)
  unfolding send_files_loop
  send_files file_paths aion_home l = elim (take_files source aion_home file_paths) [
    | err e ↦ (err e, l)
    | ok files ↦ send_files_loop aion_home files l
  ]

  -- One path of `sendAnything`: a thing that is no directory and no regular file is passed over.
  unfoldable pub send_path : String → String → SentItemInfo → L → Sent L SentItemInfo
  unfolding send_dir send_files
  send_path root p items l = elim (source.stat p) [
    | none ↦ (err not_found, l)
    | some (directory, size) ↦
        and_then (send_dir p root l)
          (λ d l1. (ok (record items { dirs = items.dirs ++ d ∷ [] }), l1))
    | some (regular, size) ↦
        and_then (send_files (p ∷ []) root l)
          (λ fs l1. (ok (record items { files = items.files ++ fs }), l1))
    | some (irregular, size) ↦ (ok items, l)
  ]

  unfoldable pub send_anything_loop : String → List String → SentItemInfo → L → Sent L ℕ
  unfolding send_path
  send_anything_loop root [] items l = (ok (sent_file_cnt items), l)
  send_anything_loop root (p ∷ paths) items l =
      and_then (send_path root (get_abs_path root p) items l)
        (λ items' l1. send_anything_loop root paths items' l1)

  -- `aion_home` is AionHome of the environment.
  unfoldable pub send_anything : String → List String → L → Sent L ℕ
  unfolding send_anything_loop
  send_anything aion_home paths l = send_anything_loop (clean aion_home) paths new_sent_item_info l

  -- stream.Send, without a retry
  unfoldable pub send_once : SendContext Any → L → Sent L (Unit {0})
  send_once req l = answer (link.send req l)

  unfoldable pub send_kanban : SendKanban → L → Sent L (Unit {0})
  unfolding send_once
  send_kanban m l = elim (codec.new_send_kanban m) [
    | none ↦ (err pack_failed, l)
    | some a ↦ send_once (record { code = sending_kanban; context = some a }) l
  ]

  unfoldable pub packing_error : Option Any → Sent L (Unit {0}) → Sent L (Unit {0})
  packing_error none (ok x, l) = (err pack_failed, l)
  packing_error _ r = r

  -- The end of the stream is sent even if its message could not be packed.
  unfoldable pub send_eos : ℕ → L → Sent L (Unit {0})
  unfolding send_once packing_error
  send_eos file_count l =
      let cont = codec.new_stream_info (record { file_count = u32 file_count }) in
      packing_error cont (send_once (record { code = eos; context = cont }) l)

  -- int32(-1)
  abbrev minus_one : ℕ
  minus_one = 2 ^ 32 - 1

  -- The files of the kanban: the count that the end of the stream will carry, and the error.
  unfoldable pub send_all : String → SendKanban → L → (ℕ × Option Fault) × L
  unfolding send_anything
  send_all aion_home m l = elim m.after_kanban [
    | none ↦ ((0, some nil_pointer), l)
    | some after ↦ elim after.file_list [
      | [] ↦ ((0, none), l)
      | p ∷ paths ↦
          let (r, l1) = send_anything aion_home (p ∷ paths) l in
          elim r [
            | ok cnt ↦ ((cnt, none), l1)
            | err e ↦ ((minus_one, some e), (send_to_server_notify_failure codec link md5 l1).1)
          ]
    ]
  ]

  -- The deferred end of the stream: its own error is kept only beside another one. A panic goes on.
  unfoldable pub end_with : Option Fault → Sent L (Unit {0}) → Option Fault × L
  end_with none (r, l) = (none, l)
  end_with (some e) (ok x, l) = (some e, l)
  end_with (some nil_pointer) (err e', l) = (some nil_pointer, l)
  end_with (some e) (err e', l) = (some e', l)

  -- `sendToOtherDeviceClient`, once the stream is open.
  unfoldable pub send_to_other_device_client : String → SendKanban → L → Option Fault × L
  unfolding send_kanban send_all send_eos end_with
  send_to_other_device_client aion_home m l =
      let (r, l1) = send_kanban m l in
      elim r [
        | err e ↦ (some e, l1)
        | ok x ↦ let ((cnt, e), l2) = send_all aion_home m l1 in end_with e (send_eos cnt l2)
      ]
