-- ===== src/SendAnything/Arrives.antt =====
-- What cmd/send-anything/app/client.go has sent without an error is what the other side receives.
use aion_core.Prelude.{
  ℕ, ◌≡◌, refl, sym, ap, ◌∙◌, String, true, Option, none, some, List, [], ◌∷◌, ◌++◌, ok, err, arith,
  Result-cases, inl, inr,
}
use aion_core.Kanban.Types.{Bytes, FileInfo, SendContext, UploadRequestCode}
use aion_core.SendAnything.Outside.{Codec, Link, IsOrdered}
use aion_core.SendAnything.Baggage.{BaggageFile, get_hash}
use aion_core.SendAnything.Send.{
  Sent, and_then, send_to_server, send_packed, create_file_info, conn_retry_count,
}

module _ {Any L : Type 0} (codec : Codec Any) (link : Link Any L) (md5 : Bytes → Bytes)
    (ordered : IsOrdered link) where
  send_to_server-arrives :
      (req : SendContext Any) (l : L) {l' : L}
      → send_to_server codec link md5 req l ≡ (ok tt, l')
      → link.sent l' ≡ link.sent l ++ req ∷ []
  unfolding send_to_server
  send_to_server-arrives req l {l' = l'} h =
      let r = link.retry_do conn_retry_count (link.send req) l in
      let success : r.1 ≡ true = ground (arith, h) in
      let same : r.0 ≡ l' = ground (arith, h) in
      let got : link.sent r.0 ≡ link.sent l ++ req ∷ [] =
        ordered.retried conn_retry_count (link.send req) (λ k. link.sent k ≡ link.sent l)
          (λ k. link.sent k ≡ link.sent l ++ req ∷ []) l refl (λ k p f. ordered.lost req k f ∙ p)
          (λ k p f. ordered.arrives req k f ∙ ap (λ (x : List (SendContext Any)). x ++ req ∷ []) p)
          success in
      ap link.sent (sym same) ∙ got

  -- A packed message that was sent without an error.
  abbrev pub IsPacked : UploadRequestCode → Option Any → L → L → Type 0
  IsPacked code o l l' =
      (a : Any) × (o ≡ some a)
      × (link.sent l' ≡ link.sent l ++ record { code = code; context = some a } ∷ [])

  pub send_packed-IsPacked :
      (code : UploadRequestCode) (o : Option Any) (l : L) {l' : L}
      → send_packed codec link md5 code o l ≡ (ok tt, l')
      → IsPacked code o l l'
  unfolding send_packed
  send_packed-IsPacked code none l h = ground (arith, h)
  send_packed-IsPacked code (some a) l h =
      (a, refl, send_to_server-arrives (record { code = code; context = some a }) l h)

  -- The header of a file, with its hash.
  abbrev pub header : BaggageFile → String → ℕ → Bytes → FileInfo
  header f rel_dir chunk_cnt hash = record {
    size = f.size;
    chunk_cnt = chunk_cnt;
    hash = hash;
    name = f.file_name;
    rel_dir = rel_dir;
  }

  pub and_then-ok :
      {A B : Type 0} (r : Sent L A) (k : A → L → Sent L B) {b : B} {l' : L}
      → and_then r k ≡ (ok b, l')
      → (a : A) × (m : L) × (r ≡ (ok a, m)) × (k a m ≡ (ok b, l'))
  and_then-ok (ok a, m) k h = (a, m, refl, h)
  and_then-ok (err e, m) k h = ground (arith, h)

  pub create_file_info-IsPacked :
      (f : BaggageFile) (rel_dir : String) (cnt : ℕ) (code : UploadRequestCode) (l : L)
      {f' : BaggageFile} {l' : L}
      → create_file_info codec link md5 f rel_dir cnt code l ≡ (ok f', l')
      → (hash : Bytes) × (get_hash md5 f ≡ ok (hash, f'))
        × IsPacked code (codec.new_file_info (header f rel_dir cnt hash)) l l'
  unfolding create_file_info
  create_file_info-IsPacked f rel_dir cnt code l {f' = f'} {l' = l'} h =
      elim (Result-cases (get_hash md5 f)) [
        | inl (e, q) ↦ ground (arith, q, h)
        | inr ((hash, f1), q) ↦
            let o = codec.new_file_info (header f rel_dir cnt hash) in
            let packed : send_packed codec link md5 code o l ≡ (ok tt, l') = ground (arith, q, h) in
            let same : get_hash md5 f ≡ ok (hash, f') = ground (arith, q, h) in
            (hash, same, send_packed-IsPacked code o l packed)
      ]
