-- ===== src/Tests/Connections.antt =====
-- A connection of the service broker to the send-anything server.
use aion_core.Prelude.{
  ◌≡◌, refl, subst, String, Option, none, some, List, [], ◌∷◌, false, All, arith,
}
use aion_core.Prelude.Int.{pos}
use aion_core.Kanban.Types.{SendKanban}
use aion_core.Devices.{send_waiting}
use aion_core.Filepath.{is_abs, join, has_prefix, abs, split}
use aion_core.SendAnything.Receive.{get_abs_path}
use aion_core.SendAnything.Take.{take_files}
use aion_core.SendAnything.Baggage.{path, get_hash, get_chunk}
use aion_core.SendAnything.Send.{send_file, answer}
use aion_core.SendAnything.Folder.{send_to_other_device_client}
use aion_core.SendAnything.BrokerConn.{
  BrokerEvent, from_broker, to_broker, context_done, BrokerConn, is_panic, service_broker_conn,
}
use aion_core.SendAnything.TwoWays.{pushed, received, streams_of, IsSafe, service_broker_conn_lem}
use aion_core.Tests.Devices.{codec, disk, Wire, wire}
use aion_core.Tests.Transfer.{machine, with_photo}

-- Every device can be reached, and the broker takes every kanban.
abbrev reach : String → Option Wire
reach addr = some []

abbrev deliver : SendKanban → List SendKanban → List SendKanban × Option String
deliver k l = (k ∷ l, none)

abbrev broken : SendKanban
broken = record with_photo { after_kanban = none }

-- A kanban in each direction, the end of the broker's stream, and what comes too late.
abbrev happening : List BrokerEvent
happening =
    from_broker (some with_photo)
    ∷ to_broker (some with_photo)
    ∷ from_broker none
    ∷ from_broker (some broken)
    ∷ context_done
    ∷ to_broker (some broken)
    ∷ []

-- Sending the photo does not panic.
photo-IsSafe :
    is_panic (send_to_other_device_client codec wire disk.md5 machine "/aion" with_photo []).0
    ≡ false
unfolding is_panic send_to_other_device_client answer get_abs_path is_abs join take_files has_prefix
    abs path split send_file get_hash get_chunk
photo-IsSafe = refl

happening-IsSafe :
    All (IsSafe codec wire disk.md5 machine "/aion" (pos 11011) reach deliver) (received happening)
unfolding received
happening-IsSafe = (
  λ l e.
      let same : [] ≡ l = ground (arith, e) in
      subst
        (λ k.
          is_panic (send_to_other_device_client codec wire disk.md5 machine "/aion" with_photo k).0
          ≡ false)
        same photo-IsSafe,
  tt,
)

service_broker_conn_lem_example :
    (c : BrokerConn Wire (List SendKanban)) × (service_broker_conn codec wire disk.md5 machine
        "/aion"
        (pos 11011)
        reach
        deliver
        happening
        []
      ≡ some c)
    × (c.streams
        ≡ streams_of codec wire disk.md5 machine "/aion"
            (pos 11011)
            reach
            deliver
            (received happening))
    × (c.broker ≡ send_waiting deliver (pushed happening) [])
service_broker_conn_lem_example =
    service_broker_conn_lem codec wire disk.md5 machine "/aion" (pos 11011) reach deliver happening
      [] happening-IsSafe
