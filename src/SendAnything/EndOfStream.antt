-- ===== src/SendAnything/EndOfStream.antt =====
-- How `sendToOtherDeviceClient` of client.go ends a stream.
use aion_core.Prelude.{ℕ, ◌≡◌, ap, ◌∙◌, String, true, Option, List, [], ◌∷◌, ◌++◌, ok, arith}
use aion_core.Kanban.Types.{Bytes, SendKanban, SendContext, eos}
use aion_core.SendAnything.Outside.{Codec, Link, IsOrdered, Fault}
use aion_core.SendAnything.Builder.{u32}
use aion_core.SendAnything.Send.{Sent, answer}
use aion_core.SendAnything.Take.{Source}
use aion_core.SendAnything.Folder.{
  send_once, packing_error, send_eos, send_kanban, send_all, end_with, send_to_other_device_client,
}

module _ {Any L : Type 0} (codec : Codec Any) (link : Link Any L) (ordered : IsOrdered link)
    (md5 : Bytes → Bytes) (source : Source) where
  -- The last message is an end of stream.
  abbrev pub EndsWithEos : L → Type 0
  EndsWithEos l =
      (before : List (SendContext Any)) × (context : Option Any) × (link.sent l
        ≡ before ++ record { code = eos; context = context } ∷ [])

  send_eos-EndsWithEos :
      (cnt : ℕ) (l : L)
      → ((m : SendContext Any) (k : L) → (link.send m k).1 ≡ true)
      → EndsWithEos (send_eos codec link md5 source cnt l).1
  unfolding send_eos send_once packing_error answer
  send_eos-EndsWithEos cnt l works =
      let cont = codec.new_stream_info (record { file_count = u32 cnt }) in
      let m : SendContext Any = record { code = eos; context = cont } in
      let success = works m l in
      let same : (send_eos codec link md5 source cnt l).1 ≡ (link.send m l).0 =
        ground (arith, success) in
      (link.sent l, cont, ap link.sent same ∙ ordered.arrives m l success)

  end_with-EndsWithEos :
      (e : Option Fault) (r : Sent L (Unit {0}))
      → EndsWithEos r.1
      → EndsWithEos (end_with codec link md5 source e r).1
  unfolding end_with
  end_with-EndsWithEos e (r, l) (before, context, p) =
      let same : (end_with codec link md5 source e (r, l)).1 ≡ l = ground arith in
      (before, context, ap link.sent same ∙ p)

  -- On a stream that takes every message, whatever becomes of the files: once the kanban itself was
  -- sent without an error, the last message that the other side gets is an end of stream.
  pub send_to_other_device_client-EndsWithEos :
      (aion_home : String) (m : SendKanban) (l : L)
      → ((m : SendContext Any) (k : L) → (link.send m k).1 ≡ true)
      → (send_kanban codec link md5 source m l).0 ≡ ok tt
      → EndsWithEos (send_to_other_device_client codec link md5 source aion_home m l).1
  unfolding send_to_other_device_client
  send_to_other_device_client-EndsWithEos aion_home m l works h =
      let l1 = (send_kanban codec link md5 source m l).1 in
      let ((cnt, e), l2) = send_all codec link md5 source aion_home m l1 in
      rw (h, send_to_other_device_client)
        (end_with-EndsWithEos e (send_eos codec link md5 source cnt l2)
          (send_eos-EndsWithEos cnt l2 works))
