-- ===== src/SendAnything/Receive.antt =====
-- cmd/send-anything/app/server.go: receiving one file. `stream.Recv` takes the next message off the
-- inbox, and fails at its end.
use aion_core.Prelude.{
  String, str_eq, Bool, true, false, not, Option, none, some, List, [], ◌∷◌, ◌==◌, if◌then◌else◌,
  Result, ok, err, ◌>>=◌,
}
use aion_core.Filepath.{join, base, dir, is_abs}
use aion_core.Kanban.Types.{
  Bytes, FileInfo, Chunk, SendContext, sending_file_cont, sending_file_eof,
}
use aion_core.SendAnything.Outside.{
  Codec, Os, Mode, directory, Fault, receive_failed, unmarshal_failed, unexpected_code, wrong_order,
  wrong_name, broken_file, open_failed,
}
use aion_core.SendAnything.Builder.{
  ReceivingFileBuilder, new_receiving_file_builder, enqueue, dequeue, OutputFileInfo, bytes_eq,
}

-- ptypes.UnmarshalAny: a nil message is an error.
abbrev pub unmarshal : {Any A : Type 0} → (Any → Option A) → Option Any → Result Fault A
unmarshal f none = err unmarshal_failed
unmarshal f (some a) = elim (f a) [ none ↦ err unmarshal_failed | some m ↦ ok m ]

-- client.go
unfoldable pub get_abs_path : String → String → String
get_abs_path root rel_path = if is_abs rel_path then rel_path else join root rel_path

-- !f.IsDir(), or there is no such file
abbrev pub lacks_dir : Option Mode → Bool
lacks_dir (some directory) = false
lacks_dir _ = true

-- The state of the files, and what a call returns.
abbrev pub Answer : Type 0 → Type 0 → Type 0 → Type 0
Answer Any S A = Result Fault A × (List (SendContext Any) × S)

abbrev pub then_on :
    {Any S A B : Type 0}
    → Answer Any S A
    → (A → List (SendContext Any) → S → Answer Any S B)
    → Answer Any S B
then_on (ok a, (inbox, s)) k = k a inbox s
then_on (err e, rest) k = (err e, rest)

unfoldable pub accept_chunk : ReceivingFileBuilder → Chunk → Result Fault ReceivingFileBuilder
accept_chunk file chunk =
    if not (chunk.ref_num == file.expect_ref_num)
    then err wrong_order
    else if not (str_eq (base file.rel_path) chunk.name)
    then err wrong_name
    else ok (enqueue file chunk.context)

module _ {Any S : Type 0} (codec : Codec Any) (os : Os S) where
  unfoldable pub receive_file_cont :
      SendContext Any → ReceivingFileBuilder → Result Fault ReceivingFileBuilder
  unfolding accept_chunk
  receive_file_cont in_ file = unmarshal codec.unmarshal_chunk in_.context >>= accept_chunk file

  -- string(f.contents hashed), "" if they cannot be read
  unfoldable pub get_md5 : String → S → Bytes
  get_md5 path s = elim (os.contents path s) [ none ↦ [] | some b ↦ os.md5 b ]

  unfoldable pub make_dir : String → S → S
  make_dir path s = if lacks_dir (os.stat path s) then os.mkdir_all path s else s

  unfoldable pub check_hash : FileInfo → String → S → Result Fault (Unit {0}) × S
  unfolding get_md5
  check_hash f_info file_path s =
      if not (os.can_open file_path s)
      then (err open_failed, s)
      else if bytes_eq f_info.hash (get_md5 file_path s)
      then (ok tt, s)
      else (err broken_file, os.remove file_path s)

  unfoldable pub after_write :
      FileInfo → String → Result Fault (Unit {0}) × S → Result Fault (Unit {0}) × S
  unfolding check_hash
  after_write f_info file_path (err e, s) = (err e, s)
  after_write f_info file_path (ok x, s) = check_hash f_info file_path s

  unfoldable pub finish_file :
      FileInfo → ReceivingFileBuilder → String → S → FileInfo → Result Fault (Unit {0}) × S
  unfolding after_write make_dir
  finish_file f_info file output_dir_path s eof =
      let output_dir = join output_dir_path eof.rel_dir in
      after_write f_info (join output_dir eof.name)
        (dequeue os file output_dir (make_dir output_dir s))

  unfoldable pub receive_eof :
      SendContext Any → FileInfo → ReceivingFileBuilder → String → S → Result Fault (Unit {0}) × S
  unfolding finish_file
  receive_eof in_ f_info file output_dir_path s =
      elim (unmarshal codec.unmarshal_file_info in_.context) [
        | err e ↦ (err e, s)
        | ok eof ↦ finish_file f_info file output_dir_path s eof
      ]

  unfoldable pub output_file : ReceivingFileBuilder → String → OutputFileInfo
  output_file file output_dir_path = record {
    dir_name = dir file.rel_path;
    path = get_abs_path output_dir_path file.rel_path;
  }

  unfoldable pub end_file :
      ReceivingFileBuilder
      → String
      → List (SendContext Any)
      → Result Fault (Unit {0}) × S
      → Answer Any S OutputFileInfo
  unfolding output_file
  end_file file output_dir_path inbox (err e, s) = (err e, (inbox, s))
  end_file file output_dir_path inbox (ok x, s) =
      (ok (output_file file output_dir_path), (inbox, s))

  -- The loop of `downloadFile`, with the builder so far.
  unfoldable pub download_file_loop :
      FileInfo
      → String
      → ReceivingFileBuilder
      → List (SendContext Any)
      → S
      → Answer Any S OutputFileInfo
  unfolding receive_file_cont end_file receive_eof
  download_file_loop f_info output_dir_path file [] s = (err receive_failed, ([], s))
  download_file_loop f_info output_dir_path file (in_ ∷ inbox) s = elim in_.code [
    | sending_file_cont ↦ elim (receive_file_cont in_ file) [
      | err e ↦ (err e, (inbox, s))
      | ok file' ↦ download_file_loop f_info output_dir_path file' inbox s
    ]
    | sending_file_eof ↦
        end_file file output_dir_path inbox (receive_eof in_ f_info file output_dir_path s)
    | _ ↦ (err unexpected_code, (inbox, s))
  ]

  unfoldable pub download_file :
      FileInfo → String → List (SendContext Any) → S → Answer Any S OutputFileInfo
  unfolding download_file_loop
  download_file f_info output_dir_path inbox s =
      download_file_loop f_info output_dir_path (new_receiving_file_builder f_info) inbox s

  unfoldable pub receive_file_info :
      SendContext Any → String → List (SendContext Any) → S → Answer Any S OutputFileInfo
  unfolding download_file
  receive_file_info in_ dir_path inbox s = elim (unmarshal codec.unmarshal_file_info in_.context) [
    | err e ↦ (err e, (inbox, s))
    | ok content ↦ download_file content dir_path inbox s
  ]
