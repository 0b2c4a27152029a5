-- ===== src/SendAnything/RoundTrip.antt =====
-- A file that client.go sends and server.go receives.
use aion_core.Prelude.{
  ◌≡◌, refl, subst, ap, ◌∙◌, String, true, some, List, [], ◌∷◌, ◌++◌, ℕ, ◌/◌, append_assoc, ok,
  arith,
}
use aion_core.Filepath.{join, base}
use aion_core.Kanban.Types.{Bytes, SendContext, sending_file_info, sending_file_eof}
use aion_core.SendAnything.Outside.{Codec, IsFaithful, Os, IsReliable, Link, IsOrdered}
use aion_core.SendAnything.Builder.{u32, OutputFileInfo}
use aion_core.SendAnything.Receive.{make_dir, receive_file_info}
use aion_core.SendAnything.Baggage.{BaggageFile, OpenFile, get_hash}
use aion_core.SendAnything.Send.{
  Sent, chunk_size, content_fuel, SentFileInfo, send_file_info, send_file_content, send_eof,
  send_file, and_then,
}
use aion_core.SendAnything.Arrives.{create_file_info-IsPacked, and_then-ok, header}
use aion_core.SendAnything.Accepts.{receive_lem}
use aion_core.SendAnything.Chunks.{Delivers, send_content_loop-Carried}

-- What three calls have appended in turn.
parts_in_order {ℓ} :
    {A : Type ℓ} (l : List A) (x : A) (body : List A) (z : A) {l1 l2 l3 : List A}
    → l1 ≡ l ++ x ∷ []
    → l2 ≡ l1 ++ body
    → l3 ≡ l2 ++ z ∷ []
    → l3 ≡ l ++ x ∷ (body ++ z ∷ [])
parts_in_order l x body z p q r =
    r
    ∙ ap (λ k. k ++ z ∷ []) (q ∙ ap (λ k. k ++ body) p)
    ∙ ap (λ k. k ++ z ∷ []) (append_assoc l (x ∷ []) body)
    ∙ append_assoc l (x ∷ body) (z ∷ [])

get_hash_lem :
    (md5 : Bytes → Bytes) (f : BaggageFile) (o : OpenFile) (b : Bytes)
    → f.file ≡ some o
    → o.content ≡ some b
    → f.hash ≡ []
    → get_hash md5 f ≡ ok (md5 b, record f { hash = md5 b; file = some (record o { offset = 0 }) })
unfolding get_hash
get_hash_lem md5 f o b e e' e'' = ground (arith, e, e', e'')

module _ {Any S L : Type 0} (codec : Codec Any) (faithful : IsFaithful codec) (os : Os S)
    (reliable : IsReliable os) (link : Link Any L) (ordered : IsOrdered link) where
  -- The three parts of what `sendFile` sends.
  record Parts (f : BaggageFile) (b : Bytes) (rel_dir : String) (l l' : L) : Type 0 where
    chunk_cnt : ℕ
    eof_cnt : ℕ
    eof_hash : Bytes
    head : Any
    eof : Any
    header_packed :
        codec.new_file_info (header codec link os.md5 ordered f rel_dir chunk_cnt (os.md5 b))
        ≡ some head
    name_of_eof : BaggageFile
    same_name : name_of_eof.file_name ≡ f.file_name
    eof_packed :
        codec.new_file_info (header codec link os.md5 ordered name_of_eof rel_dir eof_cnt eof_hash)
        ≡ some eof
    body : List (SendContext Any)
    delivers : Delivers codec os faithful f.file_name 0 eof_cnt b body
    arrived :
        link.sent l'
        ≡ link.sent l
          ++ record { code = sending_file_info; context = some head }
            ∷ (body ++ record { code = sending_file_eof; context = some eof } ∷ [])

  -- The three calls of `sendFile`, each without an error.
  record Steps (f : BaggageFile) (rel_dir : String) (l l' : L) : Type 0 where
    f1 : BaggageFile
    l1 : L
    r : ℕ × BaggageFile
    l2 : L
    f3 : BaggageFile
    first : send_file_info codec link os.md5 f rel_dir l ≡ (ok f1, l1)
    second : send_file_content codec link os.md5 f1 l1 ≡ (ok r, l2)
    third : send_eof codec link os.md5 r.1 rel_dir r.0 l2 ≡ (ok f3, l')

  send_file-Steps :
      (f : BaggageFile) (o : OpenFile) (rel_dir : String) (l : L) {info : SentFileInfo} {l' : L}
      → f.file ≡ some o
      → send_file codec link os.md5 (some f) rel_dir l ≡ (ok info, l')
      → Steps f rel_dir l l'
  unfolding send_file
  send_file-Steps f o rel_dir l {info = info} {l' = l'} e h =
      let info_of : SentFileInfo = record { dir_name = f.file_name; rel_dir_path = rel_dir } in
      let finish : ℕ × BaggageFile → L → Sent L SentFileInfo = λ r l2.
        and_then (send_eof codec link os.md5 r.1 rel_dir r.0 l2) (λ f3 l3. (ok info_of, l3)) in
      let contents : BaggageFile → L → Sent L SentFileInfo =
        λ f1 l1. and_then (send_file_content codec link os.md5 f1 l1) finish in
      let run : and_then (send_file_info codec link os.md5 f rel_dir l) contents ≡ (ok info, l') =
        ground (arith, e, h) in
      let (f1, l1, sent1, more1) =
        and_then-ok codec link os.md5 ordered (send_file_info codec link os.md5 f rel_dir l)
          contents run in
      let (r, l2, sent2, more2) =
        and_then-ok codec link os.md5 ordered (send_file_content codec link os.md5 f1 l1) finish
          more1 in
      let (f3, l3, sent3, more3) =
        and_then-ok codec link os.md5 ordered (send_eof codec link os.md5 r.1 rel_dir r.0 l2)
          (λ f3 l3. (ok info_of, l3)) more2 in
      record {
        f1 = f1;
        l1 = l1;
        r = r;
        l2 = l2;
        f3 = f3;
        first = sent1;
        second = sent2;
        third = sent3 ∙ ap (λ (x : Sent L SentFileInfo). (ok f3, x.1)) more3;
      }

  Steps-Parts :
      (f : BaggageFile) (o : OpenFile) (b : Bytes) (rel_dir : String) (l l' : L)
      → f.file ≡ some o
      → o.content ≡ some b
      → f.hash ≡ []
      → Steps f rel_dir l l'
      → Parts f b rel_dir l l'
  unfolding send_file_info send_file_content send_eof
  Steps-Parts f o b rel_dir l l' e e' e'' t =
      let hashed = get_hash_lem os.md5 f o b e e' e'' in
      let (hash, got, packed) =
        create_file_info-IsPacked codec link os.md5 ordered f rel_dir (u32 (f.size / chunk_size))
          sending_file_info l t.first in
      let same_hash : hash ≡ os.md5 b = ground (arith, got, hashed) in
      let file1 : t.f1.file ≡ some (record o { offset = 0 }) = ground (arith, got, hashed) in
      let name1 : t.f1.file_name ≡ f.file_name = ground (arith, got, hashed) in
      let c =
        send_content_loop-Carried codec os faithful link os.md5 ordered
          (content_fuel codec link os.md5 t.f1) 0 t.f1 (record o { offset = 0 }) b t.l1 file1 e'
          t.second in
      let (eof_hash, eof_got, eof_packed) =
        create_file_info-IsPacked codec link os.md5 ordered t.r.1 rel_dir t.r.0 sending_file_eof
          t.l2 t.third in
      record {
        chunk_cnt = u32 (f.size / chunk_size);
        eof_cnt = t.r.0;
        eof_hash = eof_hash;
        head = packed.0;
        eof = eof_packed.0;
        header_packed =
            subst
              (λ h.
                codec.new_file_info
                  (header codec link os.md5 ordered f rel_dir (u32 (f.size / chunk_size)) h)
                ≡ some packed.0)
              same_hash packed.1;
        name_of_eof = t.r.1;
        same_name = c.same_name ∙ name1;
        eof_packed = eof_packed.1;
        body = c.messages;
        delivers = subst (λ n. Delivers codec os faithful n 0 t.r.0 b c.messages) name1 c.delivers;
        arrived = parts_in_order (link.sent l) _ c.messages _ packed.2 c.arrived eof_packed.2;
      }

  -- A file with a hash not yet computed, whose contents are `b`, is sent without an error. Then what
  -- the stream has got is a header and further messages, and a receiver that takes the header and
  -- then these messages reports the file without an error, takes no message more, and holds `b`
  -- under the file's name. The receiver's path for the file must be one and the same when it is
  -- written and when it is opened, which leaves out the subdirectories, and the receiver's creating
  -- and writing must not fail.
  pub receive-send_file :
      (f : BaggageFile) (o : OpenFile) (b : Bytes) (rel_dir : String) (l : L) {info : SentFileInfo}
      {l' : L} (out : String) (inbox : List (SendContext Any)) (s : S)
      → f.file ≡ some o
      → o.content ≡ some b
      → f.hash ≡ []
      → send_file codec link os.md5 (some f) rel_dir l ≡ (ok info, l')
      → let path = join (join out rel_dir) f.file_name in
        let made = os.create path (make_dir codec os (join out rel_dir) s) in
        base (join rel_dir f.file_name) ≡ f.file_name
        → join (join out rel_dir) (join rel_dir f.file_name) ≡ path
        → made.1 ≡ true
        → (os.write path b made.0).1 ≡ true
        → (head : Any) × (ms : List (SendContext Any)) × (item : OutputFileInfo) × (s' : S)
          × (link.sent l'
              ≡ link.sent l ++ record { code = sending_file_info; context = some head } ∷ ms)
          × (receive_file_info codec os
                (record { code = sending_file_info; context = some head })
                out
                (ms ++ inbox)
                s
              ≡ (ok item, (inbox, s')))
          × (os.contents path s' ≡ some b)
  receive-send_file f o b rel_dir l {l' = l'} out inbox s e e' e'' h based same made wrote =
      let p = Steps-Parts f o b rel_dir l l' e e' e'' (send_file-Steps f o rel_dir l e h) in
      let hdr = header codec link os.md5 ordered f rel_dir p.chunk_cnt (os.md5 b) in
      let g = header codec link os.md5 ordered p.name_of_eof rel_dir p.eof_cnt p.eof_hash in
      let (item, received, holds) =
        receive_lem codec faithful os reliable hdr g p.head p.eof b p.eof_cnt p.body out inbox s
          (faithful.file_info hdr p.head p.header_packed) (faithful.file_info g p.eof p.eof_packed)
          p.same_name refl refl based same made wrote p.delivers in
      (
        p.head,
        p.body ++ record { code = sending_file_eof; context = some p.eof } ∷ [],
        item,
        _,
        p.arrived,
        received,
        holds,
      )
