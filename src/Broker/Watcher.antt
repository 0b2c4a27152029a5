-- ===== src/Broker/Watcher.antt =====
-- cmd/service-broker/app/watcher.go: what follows a kanban that a service has finished, and a kanban
-- that came from another device.
use aion_core.Prelude.{
  ℕ, String, Bool, not, Option, none, some, List, [], ◌∷◌, ◌++◌, Dict, lookup, str_eq,
  if◌then◌else◌, Result, ok, err,
}
use aion_core.Prelude.Int.{ℤ, negsuc}
use aion_core.Config.Types.{NextServiceSetting, Microservice, AionSetting}
use aion_core.Config.Project.{
  LookupError, nil_microservice, get_next_number, get_next_service_list, get_microservice_list,
  get_device_name, get_device_list,
}
use aion_core.Kanban.Types.{Fields, StatusKanban, SendKanban}
use aion_core.Kanban.Keys.{before, get_stream_key_by_status_type}

-- What the watcher does to the rest of the program, in the order it does it: a message on the
-- queue to other devices, a call of WriteKanban, whose error is only logged, and a request to
-- start a service. A message on the queue holds a pointer to the kanban; here it is the kanban at
-- the time of the send.
pub data Effect : Type 0 where
  send_to_device : SendKanban → Effect
  write_kanban : String → Option StatusKanban → Effect
  start : String → ℤ → Effect

-- A JSON value as encoding/json gives it to an `interface{}`: there is no `int` among them.
pub data Json : Type 0 where
  json_string : String → Json
  json_bool : Bool → Json
  json_float64 : ℕ → Json
  json_null : Json
  json_object : Json
  json_array : Json

abbrev pub service_broker_name : String
service_broker_name = "service-broker"

abbrev pub own_or : String → String → String
own_or name other = if str_eq name "" then other else name

-- The body of the loop over the next services. The kanban comes back, since it is written to.
unfoldable pub route_one :
    AionSetting → StatusKanban → NextServiceSetting → StatusKanban × List Effect
route_one setting k next_service =
    let number = get_next_number k.process_number next_service.number_pattern in
    let next_device_name = own_or k.next_device_name next_service.next_device in
    elim (lookup next_device_name (get_device_list setting)) [
      | some device ↦ (
        k,
        send_to_device (record {
          device_name = next_device_name;
          device_addr = device.addr;
          next_service = next_service.next_service_name;
          next_number = number;
          after_kanban = some k;
        })
            ∷ [],
      )
      | none ↦
          let k' : StatusKanban = record k { next_device_name = get_device_name setting } in
          (
            k',
            write_kanban
                  (get_stream_key_by_status_type next_service.next_service_name number before)
                  (some k')
                ∷ start next_service.next_service_name number
                ∷ [],
          )
    ]

unfoldable pub route_all : AionSetting → StatusKanban → List NextServiceSetting → List Effect
unfolding route_one
route_all setting k [] = []
route_all setting k (n ∷ l) =
    let (k', effects) = route_one setting k n in effects ++ route_all setting k' l

-- What the loop does next: it takes the next kanban, it ends, or it panics.
pub data Next : Type 0 where
  go_on : List Effect → Next
  stop : Next
  panic : Next

-- A round, and the effects of the rounds after it; `none` is a panic.
abbrev pub then_rest : Next → Option (List Effect) → Option (List Effect)
then_rest panic r = none
then_rest stop r = some []
then_rest (go_on effects) r = elim r [ none ↦ none | some rest ↦ some (effects ++ rest) ]

-- protojson.Marshal and json.Unmarshal of the metadata: an object, or an error.
module _ (to_json : Option Fields → Option (Dict Json)) where
  name_of : Dict Json → Option (String × ℤ)
  name_of ret = elim (lookup "name" ret) [
    | some (json_string name) ↦ some (name, negsuc 0)
    | _ ↦ none
  ]

  -- The service and the number of a terminate request; `none` is an error. The number is taken
  -- from JSON as an `int`, which no value there is, so it is -1.
  unfoldable pub terminate_service_parser : StatusKanban → Option (String × ℤ)
  unfolding name_of
  terminate_service_parser k = elim (to_json k.metadata) [
    | none ↦ none
    | some ret ↦ elim (lookup "type" ret) [
      | some (json_string func_name) ↦ if str_eq func_name "terminate" then name_of ret else none
      | _ ↦ none
    ]
  ]

  unfoldable pub routed :
      AionSetting → StatusKanban → Result LookupError (List NextServiceSetting) → Next
  unfolding route_all
  routed setting k (ok l) = go_on (route_all setting k l)
  routed setting k (err nil_microservice) = panic
  routed setting k (err e) = go_on []

  unfoldable pub follow : AionSetting → String → StatusKanban → Next
  unfolding routed
  follow setting ms_name k =
      routed setting k (get_next_service_list setting ms_name k.connection_key)

  -- A service that always runs is not terminated: its kanban is routed as any other.
  unfoldable pub terminate :
      AionSetting → String → StatusKanban → Option (Option Microservice) → Next
  unfolding follow
  terminate setting ms_name k none = go_on []
  terminate setting ms_name k (some none) = panic
  terminate setting ms_name k (some (some ms_data)) =
      if not ms_data.always then stop else follow setting ms_name k

  unfoldable pub requested : AionSetting → String → StatusKanban → Option (String × ℤ) → Next
  unfolding terminate
  requested setting ms_name k none = go_on []
  requested setting ms_name k (some (name, number)) =
      terminate setting ms_name k (lookup name (get_microservice_list setting))

  -- One round of `WatchMicroservice`, with a kanban of the service `ms_name`.
  unfoldable pub on_kanban : AionSetting → String → StatusKanban → Next
  unfolding requested follow terminate_service_parser
  on_kanban setting ms_name k =
      if str_eq k.connection_key service_broker_name
      then requested setting ms_name k (terminate_service_parser k)
      else follow setting ms_name k

  -- The loop over what the store's watcher sends, whose kanban is nil for an entry that the store
  -- could not read; `none` is a panic, and a nil kanban is one.
  unfoldable pub watch_microservice :
      AionSetting → String → List (Option StatusKanban) → Option (List Effect)
  unfolding on_kanban
  watch_microservice setting ms_name [] = some []
  watch_microservice setting ms_name (none ∷ ks) = none
  watch_microservice setting ms_name (some k ∷ ks) =
      then_rest (on_kanban setting ms_name k) (watch_microservice setting ms_name ks)

-- One round of `WatchReceiveKanban`, with a kanban from another device.
unfoldable pub on_received : SendKanban → List Effect
on_received k =
    write_kanban (get_stream_key_by_status_type k.next_service k.next_number before) k.after_kanban
    ∷ start k.next_service k.next_number
    ∷ []
