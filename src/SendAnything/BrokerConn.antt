-- ===== src/SendAnything/BrokerConn.antt =====
-- cmd/send-anything/app/server.go: the connection of the service broker, with the start of a send
-- in client.go.
use aion_core.Prelude.Int.{ℤ}
use aion_core.Prelude.Decimal.{itoa_ℤ}
use aion_core.Prelude.{
  ◌<>◌, String, Bool, true, false, Option, none, some, List, [], ◌∷◌, ◌++◌, ◌&&◌, if◌then◌else◌,
}
use aion_core.Kanban.Types.{Bytes, SendKanban}
use aion_core.SendAnything.Outside.{Codec, Link, Fault, nil_pointer}
use aion_core.SendAnything.Take.{Source}
use aion_core.SendAnything.Folder.{send_to_other_device_client}

-- What happens on a connection: the broker's stream gives a kanban or an error, the channel of the
-- kanbans from other devices gives one or is closed, or the context is done.
pub data BrokerEvent : Type 0 where
  from_broker to_broker : Option SendKanban → BrokerEvent
  context_done : BrokerEvent

-- `receiving` and `serving` say which of the two loops still run; `streams` are those to other
-- devices, oldest first; `T` is the state of the broker's stream.
pub record BrokerConn (L T : Type 0) : Type 0 where
  pub receiving : Bool
  pub serving : Bool
  pub streams : List L
  pub broker : T

unfoldable pub is_panic : Option Fault → Bool
is_panic (some nil_pointer) = true
is_panic _ = false

module _ {Any L T : Type 0} (codec : Codec Any) (link : Link Any L) (md5 : Bytes → Bytes)
    (source : Source) (aion_home : String) (client_port : ℤ) (dial : String → Option L)
    (send : SendKanban → T → T × Option String) where
  -- The state after a send; a panic in it ends the process.
  unfoldable pub after_stream : Option Fault × L → BrokerConn L T → Option (BrokerConn L T)
  unfolding is_panic
  after_stream (e, l) c =
      if is_panic e then none else some (record c { streams = c.streams ++ (l ∷ []) })

  -- A kanban from the broker opens a stream to the device it names. An error is only logged.
  unfoldable pub send_received : SendKanban → BrokerConn L T → Option (BrokerConn L T)
  unfolding after_stream
  send_received k c = elim (dial (k.device_addr <> ":" <> itoa_ℤ client_port)) [
    | none ↦ some c
    | some l ↦ after_stream (send_to_other_device_client codec link md5 source aion_home k l) c
  ]

  -- A kanban whose send to the broker fails is logged and dropped. With the end of the handler the
  -- context is cancelled, and no stream can be opened any more.
  unfoldable pub broker_event : BrokerEvent → BrokerConn L T → Option (BrokerConn L T)
  unfolding send_received
  broker_event (from_broker (some k)) c = elim (c.receiving && c.serving) [
    | true ↦ send_received k c
    | false ↦ some c
  ]
  broker_event (from_broker none) c = some (record c { receiving = false })
  broker_event (to_broker (some k)) c = elim (c.serving) [
    | true ↦ some (record c { broker = (send k c.broker).0 })
    | false ↦ some c
  ]
  broker_event (to_broker none) c = some (record c { serving = false })
  broker_event context_done c = some (record c { serving = false })

  unfoldable pub broker_events : List BrokerEvent → BrokerConn L T → Option (BrokerConn L T)
  unfolding broker_event
  broker_events [] c = some c
  broker_events (e ∷ l) c = elim (broker_event e c) [ none ↦ none | some c' ↦ broker_events l c' ]

  -- `ServiceBrokerConn`, or none if a send panics.
  unfoldable pub service_broker_conn : List BrokerEvent → T → Option (BrokerConn L T)
  unfolding broker_events
  service_broker_conn l t =
      broker_events l (record { receiving = true; serving = true; streams = []; broker = t })
