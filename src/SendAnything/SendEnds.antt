-- ===== src/SendAnything/SendEnds.antt =====
-- The loop of `sendFileContent` in client.go ends: every chunk is a part of the rest of the file.
use aion_core.Prelude.{
  ℕ, zero, suc, ◌+◌, ◌<◌, ◌≡◌, ◌≢◌, refl, ap, String, Option, none, some, length, length-append,
  length-drop, drop, ok, err, arith, Option-cases, inl, inr,
}
use aion_core.Kanban.Types.{Bytes, UploadRequestCode}
use aion_core.SendAnything.Outside.{Codec, Link, out_of_fuel}
use aion_core.SendAnything.Ends.{HasFuel}
use aion_core.SendAnything.Builder.{u32}
use aion_core.SendAnything.Baggage.{BaggageFile, OpenFile, get_chunk, get_hash}
use aion_core.SendAnything.Send.{
  Sent, SentFileInfo, and_then, chunk_size, send_packed, send_file_chunk, create_file_info,
  send_file_info, send_content_loop, content_fuel, send_file_content, send_eof, send_file,
}
use aion_core.SendAnything.Chunks.{get_chunk-Read}

and_then-HasFuel :
    {L A B : Type 0} (r : Sent L A) (k : A → L → Sent L B)
    → HasFuel r.0
    → ((a : A) (l : L) → HasFuel (k a l).0)
    → HasFuel (and_then r k).0
and_then-HasFuel (ok a, l) k h g = g a l
and_then-HasFuel (err e, l) k h g = ground (arith, h)

module _ {Any L : Type 0} (codec : Codec Any) (link : Link Any L) (md5 : Bytes → Bytes) where
  send_packed-HasFuel :
      (code : UploadRequestCode) (o : Option Any) (l : L)
      → HasFuel (send_packed codec link md5 code o l).0
  unfolding send_packed
  send_packed-HasFuel code o l = ground arith

  create_file_info-HasFuel :
      (f : BaggageFile) (rel_dir : String) (cnt : ℕ) (code : UploadRequestCode) (l : L)
      → HasFuel (create_file_info codec link md5 f rel_dir cnt code l).0
  unfolding create_file_info get_hash
  create_file_info-HasFuel f rel_dir cnt code l = ground arith

  send_content_loop-HasFuel :
      (n cnt : ℕ) (f : BaggageFile) (o : OpenFile) (b : Bytes) (l : L)
      → f.file ≡ some o
      → o.content ≡ some b
      → length (drop o.offset b) < n
      → HasFuel (send_content_loop codec link md5 n cnt f l).0
  unfolding send_content_loop send_file_chunk
  send_content_loop-HasFuel zero cnt f o b l e e' h = absurd (omega arith)
  send_content_loop-HasFuel (suc n) cnt f o b l e e' h =
      elim (get_chunk-Read chunk_size f o b (omega arith) e e') [
        | inl (got, q) ↦ ground (arith, got)
        | inr read ↦
            let f' : BaggageFile = record f { file = some read.after } in
            let shorter : length (drop read.after.offset b) < n = omega (
              arith,
              h,
              read.nonempty,
              length-append read.piece (drop read.after.offset b),
              ap length read.splits,
            ) in
            rw (read.reads, send_content_loop)
              (and_then-HasFuel (send_file_chunk codec link md5 read.piece f.file_name cnt l)
                (λ x k. send_content_loop codec link md5 n (u32 (cnt + 1)) f' k)
                (send_packed-HasFuel _ _ l)
                (λ x k.
                  send_content_loop-HasFuel n (u32 (cnt + 1)) f' read.after b k refl
                    read.same_content shorter))
      ]

  send_file_content-HasFuel :
      (f : BaggageFile) (l : L) → HasFuel (send_file_content codec link md5 f l).0
  unfolding send_file_content get_chunk content_fuel
  send_file_content-HasFuel f l = elim (Option-cases f.file) [
    | inl e ↦ ground (arith, e)
    | inr (o, e) ↦ elim (Option-cases o.content) [
      | inl e' ↦ ground (arith, e, e')
      | inr (b, e') ↦
          let enough =
            send_content_loop-HasFuel (suc (length b)) 0 f o b l e e'
              (omega (arith, length-drop o.offset b)) in
          ground (arith, e, e', enough)
    ]
  ]

  -- The fuel of the loop over the chunks is enough for every file: `sendFile` comes to an end with
  -- what it sent or with one of the errors of the program.
  pub send_file_ends :
      (file : Option BaggageFile) (rel_dir : String) (l : L)
      → (send_file codec link md5 file rel_dir l).0 ≢ err out_of_fuel
  unfolding send_file send_file_info send_eof
  send_file_ends none rel_dir l = ground arith
  send_file_ends (some f) rel_dir l =
      let info : SentFileInfo = record { dir_name = f.file_name; rel_dir_path = rel_dir } in
      let finish : ℕ × BaggageFile → L → Sent L SentFileInfo =
        λ r l2. and_then (send_eof codec link md5 r.1 rel_dir r.0 l2) (λ f3 l3. (ok info, l3)) in
      let contents : BaggageFile → L → Sent L SentFileInfo =
        λ f1 l1. and_then (send_file_content codec link md5 f1 l1) finish in
      let run =
        and_then-HasFuel (send_file_info codec link md5 f rel_dir l) contents
          (create_file_info-HasFuel f rel_dir _ _ l)
          (λ f1 l1.
            and_then-HasFuel (send_file_content codec link md5 f1 l1) finish
              (send_file_content-HasFuel f1 l1)
              (λ r l2.
                and_then-HasFuel (send_eof codec link md5 r.1 rel_dir r.0 l2)
                  (λ f3 l3. (ok info, l3)) (create_file_info-HasFuel r.1 rel_dir r.0 _ l2)
                  (λ f3 l3. λ e. ground (arith, e)))) in
      ground (arith, run)
