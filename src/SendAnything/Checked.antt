-- ===== src/SendAnything/Checked.antt =====
-- What cmd/send-anything/app/server.go has checked of a file when it reports the file as received.
use aion_core.Prelude.{
  ◌≢◌, ◌≡◌, ◌∙◌, ap, ◌++◌, sym, refl, ◌⊎◌, inl, inr, String, true, List, [], ◌∷◌, Result,
  Result-cases, ok, err, arith,
}
use aion_core.Filepath.{join}
use aion_core.Kanban.Types.{
  FileInfo, SendContext, UploadRequestCode, sending_file_cont, sending_file_eof,
}
use aion_core.SendAnything.Outside.{Codec, Os, Fault}
use aion_core.SendAnything.Builder.{
  ReceivingFileBuilder, new_receiving_file_builder, enqueue, dequeue, OutputFileInfo, bytes_eq_iff,
}
use aion_core.SendAnything.Receive.{
  unmarshal, get_abs_path, output_file, accept_chunk, make_dir, check_hash, after_write,
  finish_file, receive_file_cont, receive_eof, get_md5, download_file_loop, download_file,
}

module _ {Any S : Type 0} (codec : Codec Any) (os : Os S) where
  -- The file at `path` can be opened and has the hash that the header announced.
  abbrev pub HasHash : FileInfo → String → S → Type 0
  HasHash f path s = (os.can_open path s ≡ true) × (f.hash ≡ get_md5 codec os path s)

  -- The message that ends a file, behind its chunks, and the name and directory that it carries.
  pub record Ended (inbox rest : List (SendContext Any)) (eof : FileInfo) : Type 0 where
    chunks : List (SendContext Any)
    last : SendContext Any
    place : inbox ≡ chunks ++ (last ∷ rest)
    code : last.code ≡ sending_file_eof
    carries : unmarshal codec.unmarshal_file_info last.context ≡ ok eof

  later-Ended :
      (in_ : SendContext Any) (inbox rest : List (SendContext Any)) (eof : FileInfo)
      → Ended inbox rest eof
      → Ended (in_ ∷ inbox) rest eof
  later-Ended in_ inbox rest eof e = record {
    chunks = in_ ∷ e.chunks;
    last = e.last;
    place = ap (λ l. in_ ∷ l) e.place;
    code = e.code;
    carries = e.carries;
  }

  -- Where the file of an end message is looked up.
  abbrev pub place_of : String → FileInfo → String
  place_of out eof = join (join out eof.rel_dir) eof.name

  check_hash-HasHash :
      (f : FileInfo) (path : String) (s s' : S)
      → check_hash codec os f path s ≡ (ok tt, s')
      → HasHash f path s'
  unfolding check_hash
  check_hash-HasHash f path s s' h =
      let hash = bytes_eq_iff f.hash (get_md5 codec os path s) in
      (ground (arith, hash, h), ground (arith, hash, h))

  after_write-HasHash :
      (f : FileInfo) (path : String) (r : Result Fault (Unit {0}) × S) (s' : S)
      → after_write codec os f path r ≡ (ok tt, s')
      → HasHash f path s'
  unfolding after_write
  after_write-HasHash f path (ok tt, s) s' h = check_hash-HasHash f path s s' h
  after_write-HasHash f path (err e, s) s' h = ground (arith, h)

  receive_eof-HasHash :
      (in_ : SendContext Any) (f : FileInfo) (file : ReceivingFileBuilder) (out : String) (s s' : S)
      → receive_eof codec os in_ f file out s ≡ (ok tt, s')
      → (eof : FileInfo) × (unmarshal codec.unmarshal_file_info in_.context ≡ ok eof)
        × HasHash f (place_of out eof) s'
  unfolding receive_eof finish_file
  receive_eof-HasHash in_ f file out s s' h =
      elim (Result-cases (unmarshal codec.unmarshal_file_info in_.context)) [
        | inl (e, q) ↦ ground (arith, q, h)
        | inr (eof, q) ↦
            let dir = join out eof.rel_dir in
            let r = dequeue os file dir (make_dir codec os dir s) in
            let step : receive_eof codec os in_ f file out s
                ≡ after_write codec os f (join dir eof.name) r =
              rw (q, receive_eof) refl in
            (eof, q, after_write-HasHash f (join dir eof.name) r s' (sym step ∙ h))
      ]

  -- A chunk does not change the path under which the file is reported.
  receive_file_cont-rel_path :
      (in_ : SendContext Any) (file file' : ReceivingFileBuilder)
      → receive_file_cont codec os in_ file ≡ ok file'
      → file'.rel_path ≡ file.rel_path
  unfolding receive_file_cont accept_chunk enqueue
  receive_file_cont-rel_path in_ file file' h =
      elim (Result-cases (unmarshal codec.unmarshal_chunk in_.context)) [
        | inl (e, q) ↦ ground (arith, q, h)
        | inr (chunk, q) ↦ ground (arith, q, h)
      ]

  -- What a download that succeeds leaves.
  record Done (f : FileInfo) (out rel_path : String) (inbox rest : List (SendContext Any))
      (item : OutputFileInfo) (s' : S) : Type 0 where
    eof : FileInfo
    ended : Ended inbox rest eof
    hash : HasHash f (place_of out eof) s'
    reported : item.path ≡ get_abs_path out rel_path

  -- The end message was taken, and the file is reported.
  AtEnd :
      SendContext Any
      → FileInfo
      → ReceivingFileBuilder
      → String
      → List (SendContext Any)
      → S
      → OutputFileInfo
      → List (SendContext Any)
      → S
      → Type 0
  AtEnd in_ f file out inbox s item rest s' =
      (in_.code ≡ sending_file_eof)
      × (receive_eof codec os in_ f file out s ≡ (ok tt, s'))
      × (inbox ≡ rest)
      × (output_file codec os file out ≡ item)

  AtEnd-Done :
      (in_ : SendContext Any) (f : FileInfo) (file : ReceivingFileBuilder) (out : String)
      (inbox : List (SendContext Any)) (s : S) (item : OutputFileInfo)
      (rest : List (SendContext Any)) (s' : S)
      → AtEnd in_ f file out inbox s item rest s'
      → Done f out file.rel_path (in_ ∷ inbox) rest item s'
  unfolding AtEnd output_file
  AtEnd-Done in_ f file out inbox s item rest s' (code, done, same, reported) =
      let (eof, carries, hash) = receive_eof-HasHash in_ f file out s s' done in
      record {
        eof = eof;
        ended = record {
          chunks = [];
          last = in_;
          place = ap (λ l. in_ ∷ l) same;
          code = code;
          carries = carries;
        };
        hash = hash;
        reported = ap (λ (x : OutputFileInfo). x.path) (sym reported);
      }

  at_end :
      (in_ : SendContext Any) (f : FileInfo) (out : String) (file : ReceivingFileBuilder)
      (inbox : List (SendContext Any)) (s : S) {item : OutputFileInfo}
      {rest : List (SendContext Any)} {s' : S}
      → in_.code ≢ sending_file_cont
      → download_file_loop codec os f out file (in_ ∷ inbox) s ≡ (ok item, (rest, s'))
      → AtEnd in_ f file out inbox s item rest s'
  unfolding download_file_loop AtEnd
  at_end in_ f out file inbox s ends h =
      elim (Result-cases (receive_eof codec os in_ f file out s).0) [
        | inl (e, q) ↦ ground (arith, q, ends, h)
        | inr (x, q) ↦ (
          ground (arith, q, ends, h),
          ground (arith, q, ends, h),
          ground (arith, q, ends, h),
          ground (arith, q, ends, h),
        )
      ]

  at_chunk :
      (in_ : SendContext Any) (f : FileInfo) (out : String) (file : ReceivingFileBuilder)
      (inbox : List (SendContext Any)) (s : S) {item : OutputFileInfo}
      {rest : List (SendContext Any)} {s' : S}
      → in_.code ≡ sending_file_cont
      → download_file_loop codec os f out file (in_ ∷ inbox) s ≡ (ok item, (rest, s'))
      → (file' : ReceivingFileBuilder) × (receive_file_cont codec os in_ file ≡ ok file')
        × (download_file_loop codec os f out file' inbox s ≡ (ok item, (rest, s')))
  unfolding download_file_loop
  at_chunk in_ f out file inbox s is_chunk h =
      elim (Result-cases (receive_file_cont codec os in_ file)) [
        | inl (e, q) ↦ ground (arith, q, is_chunk, h)
        | inr (file', q) ↦ (file', q, ground (arith, q, is_chunk, h))
      ]

  is_chunk_cases : (c : UploadRequestCode) → (c ≡ sending_file_cont) ⊎ (c ≢ sending_file_cont)
  is_chunk_cases sending_file_cont = inl refl
  is_chunk_cases c = inr (λ e. ground (arith, e))

  download_file_loop-Done :
      (f : FileInfo) (out : String) (file : ReceivingFileBuilder) (inbox : List (SendContext Any))
      (s : S) {item : OutputFileInfo} {rest : List (SendContext Any)} {s' : S}
      → download_file_loop codec os f out file inbox s ≡ (ok item, (rest, s'))
      → Done f out file.rel_path inbox rest item s'
  unfolding download_file_loop
  download_file_loop-Done f out file [] s h = ground (arith, h)
  download_file_loop-Done f out file (in_ ∷ inbox) s {item = item} {rest = rest} {s' = s'} h =
      elim (is_chunk_cases in_.code) [
        | inl c ↦
            let (file', q, more) = at_chunk in_ f out file inbox s c h in
            let d = download_file_loop-Done f out file' inbox s more in
            record {
              eof = d.eof;
              ended = later-Ended in_ inbox rest d.eof d.ended;
              hash = d.hash;
              reported =
                  d.reported ∙ ap (get_abs_path out) (receive_file_cont-rel_path in_ file file' q);
            }
        | inr c ↦ AtEnd-Done in_ f file out inbox s item rest s' (at_end in_ f out file inbox s c h)
      ]

  -- A file that `downloadFile` reports as received was ended by a message of the stream, and `rest`
  -- is what follows it there. The file that this message names, in the directory that it names below
  -- the output directory, can be opened, and the MD5 of what is read there is the hash that the
  -- file's header announced. The path that is reported is the one that the header names.
  pub download_file-HasHash :
      (f : FileInfo) (out : String) (inbox : List (SendContext Any)) (s : S) {item : OutputFileInfo}
      {rest : List (SendContext Any)} {s' : S}
      → download_file codec os f out inbox s ≡ (ok item, (rest, s'))
      → (eof : FileInfo) × Ended inbox rest eof
        × HasHash f (place_of out eof) s'
        × (item.path ≡ get_abs_path out (join f.rel_dir f.name))
  unfolding download_file new_receiving_file_builder
  download_file-HasHash f out inbox s h =
      let d = download_file_loop-Done f out (new_receiving_file_builder f) inbox s h in
      (d.eof, d.ended, d.hash, d.reported)
