-- ===== src/KanbanServer.antt =====
-- cmd/kanban-server/app/: the gRPC server between the services and their streams.
pub mod Sessions
use aion_core.Prelude.{
  ℕ, String, Bool, true, false, Option, none, some, List, [], ◌∷◌, Result, ok, err, if◌then◌else◌,
}
use aion_core.Prelude.Int.{ℤ, to_int32}
use aion_core.Filepath.{join, get_ms_data_path}
use aion_core.Kanban.Types.{Fields, end, StatusKanban}
use aion_core.Kanban.Keys.{before, after, get_stream_key_by_status_type, get_static_stream_key}
use aion_core.Kanban.Store.{AdaptorKanban, WriteError, Watch, closed, waiting, read, Adapter}

-- The messages of proto/kanbanpb/status.pb.go; `Topic` is its name, and a pointer may be nil.
pub data InitializeType : Type 0 where
  start_service start_service_without_kanban : InitializeType
  unknown_type : ℕ → InitializeType

pub record InitializeService : Type 0 where
  pub init_type : InitializeType
  pub microservice_name : String
  pub process_number : ℤ

pub record Request : Type 0 where
  pub microservice_name : String
  pub message : Option StatusKanban

pub record StaticRequest : Type 0 where
  pub topic : Option String
  pub message : Option StatusKanban

pub record DeleteStaticRequest : Type 0 where
  pub topic : Option String
  pub id : String

pub data ResponseStatus : Type 0 where
  success failed : ResponseStatus

-- A request's answer: the status, and the error that goes with it.
pub record Response (E : Type 0) : Type 0 where
  pub status : ResponseStatus
  pub error : Option E

pub record StaticKanban : Type 0 where
  pub id : String
  pub status_kanban : Option StatusKanban

-- env.go
unfoldable pub get_data_dir : String → String
unfolding join
get_data_dir aion_home = join aion_home "Data"

-- session.go
pub record Session : Type 0 where
  pub microservice_name : String
  pub process_number : ℤ
  pub data_path : String

unfoldable pub response : {E : Type 0} → Option E → Response E
response none = record { status = success; error = none }
response (some e) = record { status = failed; error = some e }

module _ {S : Type 0} (io : Adapter S) where
  unfoldable pub new_session : String → ℤ → String → Session
  new_session ms_name ms_number data_path = record {
    microservice_name = ms_name;
    process_number = ms_number;
    data_path = data_path;
  }

  -- The kanban of a service that starts without one, at the time `now`.
  unfoldable pub initial_kanban : String → Session → StatusKanban
  unfolding to_int32
  initial_kanban now s = record {
    start_at = now;
    finish_at = "";
    next_device_name = "";
    connection_key = "";
    process_number = to_int32 s.process_number;
    prior_success = false;
    data_path = get_ms_data_path s.data_path s.microservice_name s.process_number;
    file_list = [];
    metadata = some end;
  }

  unfoldable pub watched_key : Session → String
  watched_key s = get_stream_key_by_status_type s.microservice_name s.process_number before

  unfoldable pub set_kanban : String → Session → S → S × Option WriteError
  unfolding initial_kanban watched_key
  set_kanban now s store = io.write_kanban (watched_key s) (some (initial_kanban now s)) store

  -- The error of the first kanban is dropped.
  unfoldable pub new_microservice_session : String → String → InitializeService → S → S × Session
  unfolding new_session set_kanban
  new_microservice_session now data_path m store =
      let session = new_session m.microservice_name m.process_number data_path in
      elim m.init_type [
        | start_service_without_kanban ↦ ((set_kanban now session store).0, session)
        | _ ↦ (store, session)
      ]

  -- A round of the session's watcher: it reads the stream into the service, and deletes.
  unfoldable pub start_kanban_watcher : Session → Bool → String → S → S × Watch
  unfolding watched_key
  start_kanban_watcher s done prev_id store = io.watch_round done true (watched_key s) prev_id store

  unfoldable pub static_round : String → Bool → String → S → S × Watch
  static_round topic done prev_id store =
      io.watch_round done true (get_static_stream_key topic) prev_id store

  -- A nil message panics: `none`.
  unfoldable pub send_kanban : Request → S → Option (S × Response WriteError)
  unfolding response
  send_kanban req store = elim req.message [
    | none ↦ none
    | some k ↦
        let key = get_stream_key_by_status_type req.microservice_name k.process_number after in
        let (store', e) = io.write_kanban key (some k) store in some (store', response e)
  ]

  -- A nil topic panics: `none`.
  unfoldable pub send_static_kanban : StaticRequest → S → Option (S × Response WriteError)
  unfolding response
  send_static_kanban req store = elim req.topic [
    | none ↦ none
    | some topic ↦
        let (store', e) = io.write_kanban (get_static_stream_key topic) req.message store in
        some (store', response e)
  ]

  unfoldable pub delete_static_kanban : DeleteStaticRequest → S → Option (S × Response String)
  unfolding response
  delete_static_kanban req store = elim req.topic [
    | none ↦ none
    | some topic ↦
        let (store', e) = io.delete_kanban (get_static_stream_key topic) req.id store in
        some (store', response e)
  ]

-- The loops of `ReceiveKanban` and `ReceiveStaticKanban` over what comes on the channel: `send` is
-- the client's stream in the state `T`. They end at the first failure, which they return.
module _ {T : Type 0} {M : Type 0} (send : M → T → T × Option String) where
  unfoldable pub after_send : T × Option String → (T → T × Option String) → T × Option String
  after_send (t, none) rest = rest t
  after_send (t, some e) rest = (t, some e)

  unfoldable pub forward : (AdaptorKanban → M) → List AdaptorKanban → T → T × Option String
  unfolding after_send
  forward message [] t = (t, none)
  forward message (k ∷ ks) t = after_send (send (message k) t) (λ t'. forward message ks t')

abbrev kanban_of : AdaptorKanban → Option StatusKanban
kanban_of k = k.kanban

abbrev static_of : AdaptorKanban → StaticKanban
static_of k = record { id = k.id; status_kanban = k.kanban }

unfoldable pub receive_kanban :
    {T : Type 0}
    → (Option StatusKanban → T → T × Option String)
    → List AdaptorKanban
    → T
    → T × Option String
unfolding forward
receive_kanban send recv_ch t = forward send kanban_of recv_ch t

unfoldable pub receive_static_kanban :
    {T : Type 0}
    → (StaticKanban → T → T × Option String)
    → List AdaptorKanban
    → T
    → T × Option String
unfolding forward
receive_static_kanban send recv_ch t = forward send static_of recv_ch t
