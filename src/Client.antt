-- ===== src/Client.antt =====
-- pkg/go-client/msclient/: the library by which a service talks to the kanban server.
pub mod Closing
use aion_core.Prelude.{
  ℕ, String, Bool, true, false, if◌then◌else◌, Option, none, some, List, [], ◌∷◌, Dict, Result, ok,
  err, str_eq, ◌++◌,
}
use aion_core.Prelude.Int.{ℤ, pos, is_nonpos, to_int32}
use aion_core.Prelude.Decimal.{itoa_ℤ}
use aion_core.Kanban.Types.{Fields, StatusKanban}
use aion_core.Broker.Watcher.{Json}
use aion_core.KanbanServer.{
  InitializeType, InitializeService, Request, StaticRequest, DeleteStaticRequest,
}

-- An option of `NewOutputData`.
abbrev pub OutputOption : Type 0
OutputOption = StatusKanban → Result String StatusKanban

unfoldable pub default_output : StatusKanban
default_output = record {
  start_at = "";
  finish_at = "";
  next_device_name = "";
  connection_key = "default";
  process_number = pos 1;
  prior_success = true;
  data_path = "";
  file_list = [];
  metadata = none;
}

unfoldable pub with_options : List OutputOption → StatusKanban → Result String StatusKanban
with_options [] d = ok d
with_options (option ∷ l) d = elim (option d) [ err e ↦ err e | ok d' ↦ with_options l d' ]

unfoldable pub new_output_data : List OutputOption → Result String StatusKanban
unfolding with_options default_output
new_output_data options = with_options options default_output

unfoldable pub set_result : Bool → OutputOption
set_result r d = ok (record d { prior_success = r })

unfoldable pub set_data_path : String → OutputOption
set_data_path p d = ok (record d { data_path = p })

unfoldable pub set_connection_key : String → OutputOption
set_connection_key k d = ok (record d { connection_key = k })

unfoldable pub set_process_number : ℤ → OutputOption
unfolding to_int32
set_process_number n d = ok (record d { process_number = to_int32 n })

unfoldable pub set_file_list : List String → OutputOption
set_file_list l d = ok (record d { file_list = l })

unfoldable pub set_device_name : String → OutputOption
set_device_name n d = ok (record d { next_device_name = n })

-- `to_struct` is json.Marshal and then protojson.Unmarshal into a Struct.
unfoldable pub set_metadata : (Dict Json → Result String Fields) → Dict Json → OutputOption
set_metadata to_struct in_ d = elim (to_struct in_) [
  | err e ↦ err e
  | ok s ↦ ok (record d { metadata = some s })
]

-- kanban.go: `to_json` is protojson.Marshal and then json.Unmarshal into a map.
unfoldable pub get_metadata_by_map :
    (Option Fields → Result String (Dict Json)) → StatusKanban → Result String (Dict Json)
get_metadata_by_map to_json k = to_json k.metadata

pub record Env : Type 0 where
  pub kanban_addr : String
  pub ms_number : ℤ
  pub is_docker : Bool

unfoldable pub with_defaults : Env → Env
with_defaults env = record env {
  kanban_addr = if str_eq env.kanban_addr "" then "aion-statuskanban:10000" else env.kanban_addr;
  ms_number = if is_nonpos env.ms_number then pos 1 else env.ms_number;
}

-- A client and its connections; a pointer that is nil is `false`.
pub record MicroserviceClient : Type 0 where
  pub env : Env
  pub service_name : String
  pub has_send_client : Bool
  pub has_recv_conn : Bool
  pub has_send_conn : Bool

pub data Connection : Type 0 where
  receiving sending : Connection

-- What `NewKanbanClient` comes to: a client and the message it opened its stream with, or an error
-- and the connections that were closed.
pub data Opened : Type 0 where
  opened : MicroserviceClient → InitializeService → Opened
  refused : String → List Connection → Opened

unfoldable pub init_msg : InitializeType → String → Env → InitializeService
unfolding to_int32
init_msg init_type service_name env = record {
  init_type = init_type;
  microservice_name = service_name;
  process_number = to_int32 env.ms_number;
}

-- The errors of the two dials and of the first call, which gets the message.
unfoldable pub new_kanban_client :
    Option String
    → Option String
    → (InitializeService → Option String)
    → Env
    → String
    → InitializeType
    → Opened
unfolding with_defaults init_msg
new_kanban_client recv_dial send_dial receive environment service_name init_type =
    let env = with_defaults environment in
    let message = init_msg init_type service_name env in
    elim recv_dial [
      | some e ↦ refused e []
      | none ↦ elim send_dial [
        | some e ↦ refused e (receiving ∷ [])
        | none ↦ elim (receive message) [
          | some e ↦ refused e (receiving ∷ [])
          | none ↦
              opened
                (record {
                  env = env;
                  service_name = service_name;
                  has_send_client = true;
                  has_recv_conn = true;
                  has_send_conn = true;
                })
                message
        ]
      ]
    ]

-- A wait on the channel of received kanbans: the timeout, or what came; nil if it is closed.
pub data Waited : Type 0 where
  timeout : Waited
  came : Option StatusKanban → Waited

unfoldable pub get_one_kanban : Waited → Result String StatusKanban
get_one_kanban timeout = err "timeout of waiting response by kanban server"
get_one_kanban (came none) = err "getting kanban is failed"
get_one_kanban (came (some kan)) = ok kan

-- The calls of the generated gRPC client, over the states `T` of the connections.
pub record Calls (T : Type 0) : Type 0 where
  pub send_kanban : Request → T → T × Option String
  pub send_static_kanban : StaticRequest → T → T × Option String
  pub delete_static_kanban : DeleteStaticRequest → T → T × Option String
  pub close_recv : T → T × Option String
  pub close_send : T → T × Option String

abbrev pub terminate_metadata : MicroserviceClient → Dict String
terminate_metadata k =
    ("type", "terminate") ∷ ("number", itoa_ℤ k.env.ms_number) ∷ ("name", k.service_name) ∷ []

unfoldable pub terminate_kanban : MicroserviceClient → Fields → StatusKanban
unfolding to_int32
terminate_kanban k s = record {
  start_at = "";
  finish_at = "";
  next_device_name = "";
  connection_key = "service-broker";
  process_number = to_int32 k.env.ms_number;
  prior_success = true;
  data_path = "";
  file_list = [];
  metadata = some s;
}

abbrev pub noted : Option String → List String → List String
noted none l = l
noted (some e) l = e ∷ l

unfoldable pub joined_error : List String → Option (List String)
joined_error [] = none
joined_error (e ∷ l) = some (e ∷ l)

-- `to_struct` is json.Marshal of a map of strings and then protojson.Unmarshal into a Struct.
module _ {T : Type 0} (calls : Calls T) (to_struct : Dict String → Result String Fields) where
  unfoldable pub output_kanban : MicroserviceClient → Option StatusKanban → T → T × Option String
  output_kanban k data_ t =
      calls.send_kanban (record { microservice_name = k.service_name; message = data_ }) t

  unfoldable pub output_static_kanban : String → Option StatusKanban → T → T × Option String
  output_static_kanban topic data_ t =
      calls.send_static_kanban (record { topic = some topic; message = data_ }) t

  unfoldable pub delete_static_kanban : String → String → T → T × Option String
  delete_static_kanban topic id t =
      calls.delete_static_kanban (record { topic = some topic; id = id }) t

  unfoldable pub send_terminate_kanban : MicroserviceClient → T → T × Option String
  unfolding output_kanban terminate_kanban
  send_terminate_kanban k t = elim (to_struct (terminate_metadata k)) [
    | err e ↦ (t, some e)
    | ok s ↦ output_kanban k (some (terminate_kanban k s)) t
  ]

  abbrev call_if : Bool → (T → T × Option String) → T → T × Option String
  call_if true f t = f t
  call_if false f t = (t, none)

  unfoldable pub close : MicroserviceClient → T → T × Option (List String)
  unfolding send_terminate_kanban joined_error
  close k t =
      let (t1, e1) = call_if k.has_send_client (send_terminate_kanban k) t in
      let (t2, e2) = call_if k.has_recv_conn calls.close_recv t1 in
      let (t3, e3) = call_if k.has_send_conn calls.close_send t2 in
      (t3, joined_error (noted e1 (noted e2 (noted e3 []))))

unfoldable pub get_process_number : MicroserviceClient → ℤ
get_process_number k = k.env.ms_number
