-- ===== src/SendAnything/Accepts.antt =====
-- server.go takes a header, chunks and an end of file, and the file is on disk.
use aion_core.Prelude.{
  ◌≡◌, refl, ◌∙◌, String, Bool, true, some, List, [], ◌∷◌, ◌++◌, ℕ, append_assoc, ok, arith,
}
use aion_core.Filepath.{join, base}
use aion_core.Kanban.Types.{Bytes, FileInfo, SendContext, sending_file_info, sending_file_eof}
use aion_core.SendAnything.Outside.{Codec, IsFaithful, Os, IsReliable}
use aion_core.SendAnything.Builder.{
  ReceivingFileBuilder, new_receiving_file_builder, dequeue, OutputFileInfo, bytes_eq_iff,
}
use aion_core.SendAnything.Receive.{
  make_dir, check_hash, get_md5, after_write, finish_file, receive_eof, output_file, end_file,
  download_file_loop, download_file, receive_file_info,
}
use aion_core.SendAnything.Chunks.{Delivers, filled}

module _ {Any S : Type 0} (codec : Codec Any) (os : Os S) (reliable : IsReliable os) where
  -- The directory of a file is made, then the file is written and read again.
  finish_file_lem :
      (f : FileInfo) (file : ReceivingFileBuilder) (out : String) (eof : FileInfo) (s : S)
      → let path = join (join out eof.rel_dir) eof.name in
        let made = os.create path (make_dir codec os (join out eof.rel_dir) s) in
        join (join out eof.rel_dir) file.rel_path ≡ path
        → made.1 ≡ true
        → (os.write path file.file_stack made.0).1 ≡ true
        → f.hash ≡ os.md5 file.file_stack
        → let s' = (os.write path file.file_stack made.0).0 in
          (finish_file codec os f file out s eof ≡ (ok tt, s'))
          × (os.contents path s' ≡ some file.file_stack)
  unfolding finish_file after_write check_hash dequeue get_md5
  finish_file_lem f file out eof s same created wrote hash =
      let path = join (join out eof.rel_dir) eof.name in
      let s1 = make_dir codec os (join out eof.rel_dir) s in
      let (opens, reads) = reliable.read_back path file.file_stack s1 created wrote in
      let eq = bytes_eq_iff f.hash (os.md5 file.file_stack) in
      (ground (arith, same, created, wrote, opens, reads, hash, eq), reads)

module _ {Any S : Type 0} (codec : Codec Any) (faithful : IsFaithful codec) (os : Os S)
    (reliable : IsReliable os) where
  -- Where the file of a header goes to, and the files before and after it is written.
  abbrev pub target : String → FileInfo → String
  target out h = join (join out h.rel_dir) h.name

  abbrev pub created : String → FileInfo → S → S × Bool
  created out h s = os.create (target out h) (make_dir codec os (join out h.rel_dir) s)

  abbrev pub stored : String → FileInfo → Bytes → S → S × Bool
  stored out h b s = os.write (target out h) b (created out h s).0

  pub receive_lem :
      (h g : FileInfo) (head eof : Any) (b : Bytes) (cnt : ℕ) (body : List (SendContext Any))
      (out : String) (inbox : List (SendContext Any)) (s : S)
      → codec.unmarshal_file_info head ≡ some h
      → codec.unmarshal_file_info eof ≡ some g
      → g.name ≡ h.name
      → g.rel_dir ≡ h.rel_dir
      → h.hash ≡ os.md5 b
      → base (join h.rel_dir h.name) ≡ h.name
      → join (join out h.rel_dir) (join h.rel_dir h.name) ≡ target out h
      → (created out h s).1 ≡ true
      → (stored out h b s).1 ≡ true
      → Delivers codec os faithful h.name 0 cnt b body
      → (item : OutputFileInfo) × (receive_file_info codec os
            (record { code = sending_file_info; context = some head })
            out
            ((body ++ record { code = sending_file_eof; context = some eof } ∷ []) ++ inbox)
            s
          ≡ (ok item, (inbox, (stored out h b s).0)))
        × (os.contents (target out h) (stored out h b s).0 ≡ some b)
  unfolding receive_file_info download_file download_file_loop receive_eof end_file
      new_receiving_file_builder
  receive_lem h g head eof b cnt body out inbox s u v name dir hash based same made wrote d =
      let m : SendContext Any = record { code = sending_file_eof; context = some eof } in
      let file = filled (new_receiving_file_builder h) b cnt in
      let (done, holds) = finish_file_lem codec os reliable h file out h s same made wrote hash in
      let other : finish_file codec os h file out s g ≡ finish_file codec os h file out s h =
        rw (name, dir, finish_file) refl in
      let end : receive_eof codec os m h file out s ≡ (ok tt, (stored out h b s).0) =
        ground (arith, v, other, done) in
      let last : download_file_loop codec os h out file (m ∷ inbox) s
          ≡ (ok (output_file codec os file out), (inbox, (stored out h b s).0)) =
        rw (end, download_file_loop) refl in
      let through = d h out (new_receiving_file_builder h) (m ∷ inbox) s refl based in
      (
        output_file codec os file out,
        rw (u, append_assoc body (m ∷ []) inbox, receive_file_info) (through ∙ last),
        holds,
      )
