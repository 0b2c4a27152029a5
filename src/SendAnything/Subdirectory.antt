-- ===== src/SendAnything/Subdirectory.antt =====
-- The end of a file that server.go receives for a subdirectory.
use aion_core.Prelude.{◌≡◌, ◌≢◌, String, true, false, some, err, arith}
use aion_core.Filepath.{join}
use aion_core.Kanban.Types.{FileInfo, SendContext}
use aion_core.SendAnything.Outside.{Codec, Os, IsSeparate, open_failed}
use aion_core.SendAnything.Builder.{ReceivingFileBuilder, dequeue}
use aion_core.SendAnything.Receive.{make_dir, check_hash, after_write, finish_file, receive_eof}

module _ {Any S : Type 0} (codec : Codec Any) (os : Os S) (separate : IsSeparate os) where
  -- The directory of a header is added twice to the path that is written, and once to the path that
  -- is opened. Where these differ, and the second cannot be opened before, the end of a file is
  -- answered with an error even though creating and writing the file succeed.
  pub receive_eof_subdirectory :
      (in_ : SendContext Any) (a : Any) (f eof : FileInfo) (file : ReceivingFileBuilder)
      (out : String) (s : S)
      → in_.context ≡ some a
      → codec.unmarshal_file_info a ≡ some eof
      → file.rel_path ≡ join eof.rel_dir eof.name
      → let root = join out eof.rel_dir in
        let written = join root (join eof.rel_dir eof.name) in
        let opened = join root eof.name in
        let s1 = make_dir codec os root s in
        written ≢ opened
        → (os.create written s1).1 ≡ true
        → (os.write written file.file_stack (os.create written s1).0).1 ≡ true
        → os.can_open opened s1 ≡ false
        → (receive_eof codec os in_ f file out s).0 ≡ err open_failed
  unfolding receive_eof finish_file after_write check_hash dequeue
  receive_eof_subdirectory in_ a f eof file out s e u path differ made wrote absent =
      let root = join out eof.rel_dir in
      let s1 = make_dir codec os root s in
      let still =
        separate.elsewhere (join root (join eof.rel_dir eof.name)) (join root eof.name)
          file.file_stack s1 differ in
      ground (arith, e, u, path, made, wrote, absent, still)
