-- ===== src/SendAnything/Send.antt =====
-- cmd/send-anything/app/client.go: sending one file.
use aion_core.Prelude.{
  ℕ, zero, suc, ◌+◌, ◌*◌, ◌/◌, String, Bool, true, false, Option, none, some, length, if◌then◌else◌,
  Result, ok, err,
}
use aion_core.Kanban.Types.{
  Bytes, SendContext, UploadRequestCode, sending_file_info, sending_file_eof, sending_file_cont,
  sending_file_failed,
}
use aion_core.SendAnything.Outside.{
  Codec, Link, Fault, read_failed, pack_failed, send_failed, not_found, out_of_fuel,
}
use aion_core.SendAnything.Builder.{u32}
use aion_core.SendAnything.Baggage.{
  BaggageFile, is_exist, chunk, end_of_file, no_chunk, get_chunk, get_hash,
}

abbrev pub chunk_size : ℕ
chunk_size = 128 * 1024

abbrev pub conn_retry_count : ℕ
conn_retry_count = 10

pub record SentFileInfo : Type 0 where
  pub dir_name : String
  pub rel_dir_path : String

-- What a call returns, and the stream after it.
abbrev pub Sent : Type 0 → Type 0 → Type 0
Sent L A = Result Fault A × L

abbrev pub and_then : {L A B : Type 0} → Sent L A → (A → L → Sent L B) → Sent L B
and_then (ok a, l) k = k a l
and_then (err e, l) k = (err e, l)

unfoldable pub answer : {L : Type 0} → L × Bool → Sent L (Unit {0})
answer (l, true) = (ok tt, l)
answer (l, false) = (err send_failed, l)

module _ {Any L : Type 0} (codec : Codec Any) (link : Link Any L) (md5 : Bytes → Bytes) where
  unfoldable pub send_to_server : SendContext Any → L → Sent L (Unit {0})
  unfolding answer
  send_to_server req l = answer (link.retry_do conn_retry_count (link.send req) l)

  unfoldable pub send_to_server_notify_failure : L → Sent L (Unit {0})
  unfolding send_to_server
  send_to_server_notify_failure l =
      send_to_server (record { code = sending_file_failed; context = none }) l

  -- A packed message of the given code, or the error of packing it.
  unfoldable pub send_packed : UploadRequestCode → Option Any → L → Sent L (Unit {0})
  unfolding send_to_server
  send_packed code none l = (err pack_failed, l)
  send_packed code (some a) l = send_to_server (record { code = code; context = some a }) l

  -- The file comes back with its hash.
  unfoldable pub create_file_info :
      BaggageFile → String → ℕ → UploadRequestCode → L → Sent L BaggageFile
  unfolding send_packed
  create_file_info f rel_dir chunk_cnt code l = elim (get_hash md5 f) [
    | err e ↦ (err e, l)
    | ok (hash, f') ↦
        and_then
          (send_packed code
            (codec.new_file_info (record {
              size = f.size;
              chunk_cnt = chunk_cnt;
              hash = hash;
              name = f.file_name;
              rel_dir = rel_dir;
            }))
            l)
          (λ x l'. (ok f', l'))
  ]

  unfoldable pub send_file_info : BaggageFile → String → L → Sent L BaggageFile
  unfolding create_file_info
  send_file_info f rel_dir l =
      create_file_info f rel_dir (u32 (f.size / chunk_size)) sending_file_info l

  unfoldable pub send_eof : BaggageFile → String → ℕ → L → Sent L BaggageFile
  unfolding create_file_info
  send_eof f rel_dir chunk_cnt l = create_file_info f rel_dir chunk_cnt sending_file_eof l

  unfoldable pub send_file_chunk : Bytes → String → ℕ → L → Sent L (Unit {0})
  unfolding send_packed
  send_file_chunk c f_name ref_num l =
      send_packed sending_file_cont
        (codec.new_chunk (record { context = c; name = f_name; ref_num = ref_num })) l

  -- The loop of `sendFileContent`, from the chunk `cnt` on.
  unfoldable pub send_content_loop : ℕ → ℕ → BaggageFile → L → Sent L (ℕ × BaggageFile)
  unfolding send_file_chunk
  send_content_loop zero cnt f l = (err out_of_fuel, l)
  send_content_loop (suc n) cnt f l = elim (get_chunk chunk_size f) [
    | end_of_file ↦ (ok (cnt, f), l)
    | no_chunk ↦ (err read_failed, l)
    | chunk c f' ↦
        and_then (send_file_chunk c f.file_name cnt l)
          (λ x l'. send_content_loop n (u32 (cnt + 1)) f' l')
  ]

  -- One round for each byte, and one for the end of the file, are enough.
  unfoldable pub content_fuel : BaggageFile → ℕ
  content_fuel f = elim f.file [
    | none ↦ 1
    | some o ↦ elim o.content [ none ↦ 1 | some b ↦ suc (length b) ]
  ]

  unfoldable pub send_file_content : BaggageFile → L → Sent L (ℕ × BaggageFile)
  unfolding send_content_loop content_fuel
  send_file_content f l = send_content_loop (content_fuel f) 0 f l

  -- A nil `*baggage.FileInfo` is `none`.
  unfoldable pub send_file : Option BaggageFile → String → L → Sent L SentFileInfo
  unfolding is_exist send_file_info send_file_content send_eof
  send_file none rel_dir l = (err not_found, l)
  send_file (some file) rel_dir l =
      if is_exist file
      then and_then (send_file_info file rel_dir l) (λ f1 l1.
        and_then (send_file_content f1 l1) (λ r l2.
          and_then (send_eof r.1 rel_dir r.0 l2)
            (λ f3 l3. (ok (record { dir_name = file.file_name; rel_dir_path = rel_dir }), l3))))
      else (err not_found, l)
