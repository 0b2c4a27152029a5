-- ===== src/SendAnything/Chunks.antt =====
-- The contents of a file, cut into chunks by client.go and put together by server.go.
use aion_core.Prelude.{
  ℕ, zero, suc, ◌+◌, ◌≡◌, refl, subst, sym, ap, ◌∙◌, String, some, List, [], ◌∷◌, ◌++◌,
  append_assoc, append-nil, length, ◌≤◌, length-take, take, drop, take-append-drop, ok, arith, ◌⊎◌,
  inl, inr, ==_iff, eq_iff,
}
use aion_core.Filepath.{base}
use aion_core.Kanban.Types.{Bytes, FileInfo, SendContext, sending_file_cont}
use aion_core.SendAnything.Outside.{Codec, IsFaithful, Os, Link, IsOrdered}
use aion_core.SendAnything.Builder.{ReceivingFileBuilder, enqueue, u32}
use aion_core.SendAnything.Receive.{receive_file_cont, accept_chunk, download_file_loop}
use aion_core.SendAnything.Baggage.{
  BaggageFile, OpenFile, GetChunk, chunk, end_of_file, get_chunk, read_chunk,
}
use aion_core.SendAnything.Send.{and_then, chunk_size, send_file_chunk, send_content_loop}
use aion_core.SendAnything.Arrives.{send_packed-IsPacked, and_then-ok}

drop-nil {ℓ} : {A : Type ℓ} (n : ℕ) → drop {A = A} n [] ≡ []
drop-nil zero = refl
drop-nil (suc n) = refl

drop-drop {ℓ} : {A : Type ℓ} (m k : ℕ) (l : List A) → drop (m + k) l ≡ drop k (drop m l)
drop-drop zero k l = ap (λ n. drop n l) (omega arith)
drop-drop (suc m) k [] = drop-nil (suc m + k) ∙ sym (drop-nil k)
drop-drop (suc m) k (x ∷ l) =
    let e : suc m + k ≡ suc (m + k) = omega arith in ap (λ n. drop n (x ∷ l)) e ∙ drop-drop m k l

drop-length-take {ℓ} : {A : Type ℓ} (n : ℕ) (l : List A) → drop (length (take n l)) l ≡ drop n l
drop-length-take zero l = refl
drop-length-take (suc n) [] = refl
drop-length-take (suc n) (x ∷ l) = drop-length-take n l

-- The builder after `bytes`, when it expects the chunk `c`.
abbrev pub filled : ReceivingFileBuilder → Bytes → ℕ → ReceivingFileBuilder
filled file bytes c = record file { file_stack = file.file_stack ++ bytes; expect_ref_num = c }

module _ {Any S : Type 0} (codec : Codec Any) (os : Os S) (faithful : IsFaithful codec) where
  -- A receiver that expects chunk `c` of the file `name` takes the messages, adds `bytes` to the
  -- file, and expects chunk `c'`.
  abbrev pub Delivers : String → ℕ → ℕ → Bytes → List (SendContext Any) → Type 0
  Delivers name c c' bytes ms =
      (f : FileInfo) (out : String) (file : ReceivingFileBuilder) (inbox : List (SendContext Any))
      (s : S)
      → file.expect_ref_num ≡ c
      → base file.rel_path ≡ name
      → download_file_loop codec os f out file (ms ++ inbox) s
        ≡ download_file_loop codec os f out (filled file bytes c') inbox s

  one_chunk-Delivers :
      (name : String) (c : ℕ) (bytes : Bytes) (a : Any)
      → codec.new_chunk (record { context = bytes; name = name; ref_num = c }) ≡ some a
      → Delivers name c
          (u32 (c + 1))
          bytes
          (record { code = sending_file_cont; context = some a } ∷ [])
  unfolding download_file_loop receive_file_cont accept_chunk enqueue
  one_chunk-Delivers name c bytes a packed f out file inbox s p q =
      let read = faithful.chunk (record { context = bytes; name = name; ref_num = c }) a packed in
      let num = ==_iff c file.expect_ref_num in
      let same = eq_iff (base file.rel_path) name in
      let m : SendContext Any = record { code = sending_file_cont; context = some a } in
      let got : receive_file_cont codec os m file ≡ ok (filled file bytes (u32 (c + 1))) =
        ground (arith, read, num, same, p, q) in
      rw (got, download_file_loop) refl

  -- Two deliveries, one after the other.
  append-Delivers :
      (name : String) (c c' c'' : ℕ) (x y : Bytes) (ms ns : List (SendContext Any))
      → Delivers name c c' x ms
      → Delivers name c' c'' y ns
      → Delivers name c c'' (x ++ y) (ms ++ ns)
  append-Delivers name c c' c'' x y ms ns d e f out file inbox s p q =
      let first : download_file_loop codec os f out file (ms ++ (ns ++ inbox)) s
          ≡ download_file_loop codec os f out (filled file x c') (ns ++ inbox) s =
        d f out file (ns ++ inbox) s p q in
      let second = e f out (filled file x c') inbox s refl q in
      rw (append_assoc ms ns inbox, first, second, append_assoc file.file_stack x y) refl

  nil-Delivers : (name : String) (c : ℕ) → Delivers name c c [] []
  nil-Delivers name c f out file inbox s p q =
      let same : filled file [] c ≡ file = cc (append-nil file.file_stack, p) in
      ap (λ b. download_file_loop codec os f out b inbox s) (sym same)

List-cases {ℓ} : {A : Type ℓ} (l : List A) → (l ≡ []) ⊎ ((x : A) × (xs : List A) × (l ≡ x ∷ xs))
List-cases [] = inl refl
List-cases (x ∷ xs) = inr (x, xs, refl)

-- A read that is not at the end of the file takes a piece of what is left.
pub record Read (f : BaggageFile) (o : OpenFile) (b : Bytes) (g : GetChunk) : Type 0 where
  pub piece : Bytes
  pub after : OpenFile
  pub nonempty : 1 ≤ length piece
  pub reads : g ≡ chunk piece (record f { file = some after })
  pub same_content : after.content ≡ some b
  pub splits : piece ++ drop after.offset b ≡ drop o.offset b

read_chunk-Read :
    (size : ℕ) (f : BaggageFile) (o : OpenFile) (b : Bytes) (x : ℕ) (xs : Bytes)
    → 1 ≤ size
    → o.content ≡ some b
    → drop o.offset b ≡ x ∷ xs
    → Read f o b (read_chunk size f o (x ∷ xs))
unfolding read_chunk
read_chunk-Read size f o b x xs z e q =
    let piece = take size (x ∷ xs) in
    record {
      piece = piece;
      after = record o { offset = o.offset + length piece };
      nonempty = omega (arith, z, length-take size (x ∷ xs));
      reads = refl;
      same_content = e;
      splits =
          rw (drop-drop o.offset (length piece) b, q, drop-length-take size (x ∷ xs))
            (take-append-drop size (x ∷ xs));
    }

pub get_chunk-Read :
    (size : ℕ) (f : BaggageFile) (o : OpenFile) (b : Bytes)
    → 1 ≤ size
    → f.file ≡ some o
    → o.content ≡ some b
    → ((get_chunk size f ≡ end_of_file) × (drop o.offset b ≡ [])) ⊎ Read f o b (get_chunk size f)
unfolding get_chunk
get_chunk-Read size f o b z e e' =
    let step : get_chunk size f ≡ read_chunk size f o (drop o.offset b) = ground (arith, e, e') in
    elim (List-cases (drop o.offset b)) [
      | inl q ↦ inl (step ∙ ap (read_chunk size f o) q, q)
      | inr (x, xs, q) ↦ inr (
          subst (λ g. Read f o b g) (sym (step ∙ ap (read_chunk size f o) q))
            (read_chunk-Read size f o b x xs z e' q))
    ]

module _ {Any S L : Type 0} (codec : Codec Any) (os : Os S) (faithful : IsFaithful codec)
    (link : Link Any L) (md5 : Bytes → Bytes) (ordered : IsOrdered link) where
  -- What a loop over the rest of a file has sent.
  pub record Carried (name : String) (c : ℕ) (bytes : Bytes) (l : L) (r : ℕ × BaggageFile) (l' : L)
      : Type 0 where
    pub messages : List (SendContext Any)
    pub arrived : link.sent l' ≡ link.sent l ++ messages
    pub delivers : Delivers codec os faithful name c r.0 bytes messages
    pub same_name : r.1.file_name ≡ name

  pub send_content_loop-Carried :
      (n c : ℕ) (f : BaggageFile) (o : OpenFile) (b : Bytes) (l : L) {r : ℕ × BaggageFile} {l' : L}
      → f.file ≡ some o
      → o.content ≡ some b
      → send_content_loop codec link md5 n c f l ≡ (ok r, l')
      → Carried f.file_name c (drop o.offset b) l r l'
  unfolding send_content_loop send_file_chunk
  send_content_loop-Carried zero c f o b l e e' h = ground (arith, h)
  send_content_loop-Carried (suc n) c f o b l {r = r} {l' = l'} e e' h =
      elim (get_chunk-Read chunk_size f o b (omega arith) e e') [
        | inl (got, q) ↦
            let count : r.0 ≡ c = ground (arith, got, h) in
            let name : r.1.file_name ≡ f.file_name = ground (arith, got, h) in
            let same : link.sent l' ≡ link.sent l = ground (arith, got, h) in
            record {
              messages = [];
              arrived = same ∙ sym (append-nil (link.sent l));
              delivers = rw (q, count) (nil-Delivers codec os faithful f.file_name c);
              same_name = name;
            }
        | inr read ↦
            let f' : BaggageFile = record f { file = some read.after } in
            let sends = send_file_chunk codec link md5 read.piece f.file_name c l in
            let step : send_content_loop codec link md5 (suc n) c f l
                ≡ and_then sends (λ x k. send_content_loop codec link md5 n (u32 (c + 1)) f' k) =
              rw (read.reads, send_content_loop) refl in
            let run : and_then sends (λ x k. send_content_loop codec link md5 n (u32 (c + 1)) f' k)
                ≡ (ok r, l') =
              sym step ∙ h in
            let (x, m, sent, more) =
              and_then-ok codec link md5 ordered sends
                (λ x k. send_content_loop codec link md5 n (u32 (c + 1)) f' k) run in
            let (a, packed, arrives) =
              send_packed-IsPacked codec link md5 ordered sending_file_cont
                (codec.new_chunk (record { context = read.piece; name = f.file_name; ref_num = c }))
                l sent in
            let ih =
              send_content_loop-Carried n (u32 (c + 1)) f' read.after b m refl read.same_content
                more in
            let first : SendContext Any = record { code = sending_file_cont; context = some a } in
            record {
              messages = first ∷ ih.messages;
              arrived =
                  ih.arrived
                  ∙ ap (λ (x : List (SendContext Any)). x ++ ih.messages) arrives
                  ∙ append_assoc (link.sent l) (first ∷ []) ih.messages;
              delivers = rw (← read.splits) (
                  append-Delivers codec os faithful f.file_name c (u32 (c + 1)) r.0 read.piece
                    (drop read.after.offset b) (first ∷ []) ih.messages
                    (one_chunk-Delivers codec os faithful f.file_name c read.piece a packed)
                    ih.delivers);
              same_name = ih.same_name;
            }
      ]
