-- ===== src/SendAnything/Request.antt =====
-- cmd/send-anything/app/server.go: the request of another device, from its first message to the
-- status that answers it.
use aion_core.Prelude.{String, Option, none, some, List, [], ◌∷◌, Result, ok, err}
use aion_core.Kanban.Types.{
  SendKanban, SendContext, sending_kanban, UploadStatusCode, failed, ok_status,
}
use aion_core.SendAnything.Outside.{Codec, Os, Fault, nil_pointer}
use aion_core.SendAnything.Receive.{Answer}
use aion_core.SendAnything.Download.{receive_sending_kanban, download_anything}

-- What is left of a request: the status, the kanban that went to the service broker, if one did,
-- and the files. A panic has no status.
pub record Handled (S : Type 0) : Type 0 where
  pub status : Option UploadStatusCode
  pub pushed : Option SendKanban
  pub files : S

refused : {S : Type 0} → S → Handled S
refused s = record { status = some failed; pushed = none; files = s }

-- The deferred push: it is done after a failed download and after a panic too, with the kanban
-- that came in.
finished : {Any S : Type 0} → SendKanban → Answer Any S SendKanban → Handled S
finished k (ok k', (inbox, s)) = record { status = some ok_status; pushed = some k'; files = s }
finished k (err nil_pointer, (inbox, s)) = record { status = none; pushed = some k; files = s }
finished k (err e, (inbox, s)) = record { status = some failed; pushed = some k; files = s }

module _ {Any S : Type 0} (codec : Codec Any) (os : Os S) where
  after_kanban : List (SendContext Any) → Result Fault (SendKanban × String) × S → Handled S
  unfolding refused finished
  after_kanban inbox (err e, s) = refused s
  after_kanban inbox (ok (k, path), s) = finished k (download_anything codec os k path inbox s)

  -- `messageParserInSendAnythingServer`, whose status `SendToOtherDevices` answers.
  unfoldable pub message_parser : String → List (SendContext Any) → S → Handled S
  unfolding refused after_kanban
  message_parser dir_path [] s = refused s
  message_parser dir_path (in_ ∷ inbox) s = elim in_.code [
    | sending_kanban ↦ after_kanban inbox (receive_sending_kanban codec os in_ dir_path s)
    | _ ↦ refused s
  ]
