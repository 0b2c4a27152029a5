-- ===== src/KanbanServer/Sessions.antt =====
-- Kanbans on their way through cmd/kanban-server/app/, on the Redis store.
use aion_core.Prelude.{
  false, none, ◌<◌, String, Bool, true, ◌&&◌, Bool-cases, inl, inr, if◌then◌else◌, List, [], ◌∷◌,
  ◌++◌, map, All, some, ◌≡◌, ◌≢◌, refl, sym, ap, ◌∙◌, str_eq, eq_iff, arith,
}
use aion_core.Prelude.Int.{ℤ, eq_ℤ, eq_ℤ_iff}
use aion_core.Kanban.Types.{StatusKanban}
use aion_core.Kanban.Keys.{before, after, static, get_stream_key_by_status_type}
use aion_core.Kanban.KeyLaws.{get_stream_key_by_status_type_inj}
use aion_core.Kanban.Store.{
  AdaptorKanban, Jsonpb, init_prev_id, Watch, closed, waiting, read, write_kanban, watch_round,
  new_redis_adapter,
}
use aion_core.Redis.{Redis, max_len}
use aion_core.Kanban.Queue.{
  StreamLaws, IsUp, Action, write, round, fifo, Fits, Survives, AllSurvive, then_sent, deliveries,
}
use aion_core.Kanban.Refines.{deliveries-fifo}
use aion_core.KanbanServer.{
  InitializeType, start_service, start_service_without_kanban, unknown_type, InitializeService,
  Session, new_session, start_kanban_watcher, initial_kanban, watched_key, set_kanban,
  new_microservice_session, response, send_kanban,
}

-- A request that a service sends, or a round of the watcher of a stream.
pub data Event : Type 0 where
  request : String → StatusKanban → Event
  look : Event

-- The stream of the kanbans that the service `name` has finished as process `k.process_number`.
abbrev pub out_key : String → StatusKanban → String
out_key name k = get_stream_key_by_status_type name k.process_number after

abbrev pub actions : List Event → List Action
actions [] = []
actions (request name k ∷ l) = write (out_key name k) k ∷ actions l
actions (look ∷ l) = round ∷ actions l

-- The kanbans of the service `ms_name` and its process `number`, first in first out.
abbrev pub finished : String → ℤ → List Event → List StatusKanban → List StatusKanban
finished ms_name number [] q = []
finished ms_name number (request name k ∷ l) q =
    if str_eq name ms_name && eq_ℤ k.process_number number
    then finished ms_name number l (q ++ (k ∷ []))
    else finished ms_name number l q
finished ms_name number (look ∷ l) [] = finished ms_name number l []
finished ms_name number (look ∷ l) (k ∷ q) = k ∷ finished ms_name number l q

same_stream :
    (name ms_name : String) (a b : ℤ)
    → str_eq
        (get_stream_key_by_status_type name a after)
        (get_stream_key_by_status_type ms_name b after)
      ≡ (str_eq name ms_name && eq_ℤ a b)
same_stream name ms_name a b =
    let key = get_stream_key_by_status_type name a after in
    let other = get_stream_key_by_status_type ms_name b after in
    let apart : after ≢ static = λ h. ground (arith, h) in
    let back : key ≡ other → (name ≡ ms_name) × (a ≡ b) × (after ≡ after) =
      get_stream_key_by_status_type_inj name ms_name a b after after apart apart in
    elim (Bool-cases (str_eq key other)) [
      | inl e ↦
          let (p, q, r) = back (ground (arith, e, eq_iff key other)) in
          ground (arith, e, p, q, eq_iff name ms_name, eq_ℤ_iff a b)
      | inr e ↦ elim (Bool-cases (str_eq name ms_name && eq_ℤ a b)) [
        | inl f ↦
            let p : name ≡ ms_name = ground (arith, f, eq_iff name ms_name) in
            let q : a ≡ b = ground (arith, f, eq_ℤ_iff a b) in
            let same : key ≡ other =
              ap (λ n. get_stream_key_by_status_type n a after) p
              ∙ ap (λ n. get_stream_key_by_status_type ms_name n after) q in
            ground (arith, e, same, eq_iff key other)
        | inr f ↦ e ∙ sym f
      ]
    ]

fifo-finished :
    (ms_name : String) (number : ℤ) (l : List Event) (q : List StatusKanban)
    → fifo (get_stream_key_by_status_type ms_name number after) (actions l) q
      ≡ finished ms_name number l q
fifo-finished ms_name number [] q = refl
fifo-finished ms_name number (request name k ∷ l) q =
    let step = same_stream name ms_name k.process_number number in
    let one = fifo-finished ms_name number l (q ++ (k ∷ [])) in
    let two = fifo-finished ms_name number l q in ground (arith, step, one, two)
fifo-finished ms_name number (look ∷ l) [] = fifo-finished ms_name number l []
fifo-finished ms_name number (look ∷ l) (k ∷ q) = ap (λ t. k ∷ t) (fifo-finished ms_name number l q)

abbrev pub in_key : InitializeService → String
in_key m = get_stream_key_by_status_type m.microservice_name m.process_number before

module _ {S : Type 0} (redis : Redis S) (jsonpb : Jsonpb) where
  -- The kanban that a session puts on the stream of its service, and the store when it is opened.
  abbrev pub first_of : String → String → InitializeService → List StatusKanban
  first_of now data_path m =
      let io = new_redis_adapter redis jsonpb in
      let session = new_session io m.microservice_name m.process_number data_path in
      let first = initial_kanban io now session in
      elim m.init_type [ start_service_without_kanban ↦ first ∷ [] | _ ↦ [] ]

  -- What the watcher of a session sends to its service, while kanbans are written around it.
  unfoldable pub session_sends : Session → List Action → String → S → List AdaptorKanban
  unfolding start_kanban_watcher
  session_sends session [] prev s = []
  session_sends session (write other k ∷ l) prev s =
      session_sends session l prev (write_kanban redis jsonpb other (some k) s).0
  session_sends session (round ∷ l) prev s =
      then_sent redis jsonpb
        (start_kanban_watcher (new_redis_adapter redis jsonpb) session false prev s)
        (λ next s'. session_sends session l next s') prev

  -- A request of a service for a session: the session is made and its watcher started.
  unfoldable pub served : String → String → InitializeService → List Action → S → List AdaptorKanban
  served now data_path m l s =
      let (s', session) =
        new_microservice_session (new_redis_adapter redis jsonpb) now data_path m s in
      session_sends session l init_prev_id s'

  then_sent-ext :
      (r : S × Watch) (f g : String → S → List AdaptorKanban) (prev : String)
      → ((next : String) (s : S) → f next s ≡ g next s)
      → then_sent redis jsonpb r f prev ≡ then_sent redis jsonpb r g prev
  then_sent-ext (s, closed) f g prev h = refl
  then_sent-ext (s, waiting) f g prev h = h prev s
  then_sent-ext (s, read next none) f g prev h = h next s
  then_sent-ext (s, read next (some a)) f g prev h = ap (λ t. a ∷ t) (h next s)

  -- It reads the stream for what goes into the service, and deletes what it has read.
  session_sends-deliveries :
      (session : Session) (l : List Action) (prev : String) (s : S)
      → session_sends session l prev s
        ≡ deliveries redis jsonpb true
            (get_stream_key_by_status_type session.microservice_name session.process_number before)
            l
            prev
            s
  unfolding session_sends deliveries new_redis_adapter watched_key
  session_sends-deliveries session [] prev s = refl
  session_sends-deliveries session (write other k ∷ l) prev s =
      session_sends-deliveries session l prev (write_kanban redis jsonpb other (some k) s).0
  session_sends-deliveries session (round ∷ l) prev s =
      let key =
        get_stream_key_by_status_type session.microservice_name session.process_number before in
      then_sent-ext (watch_round redis jsonpb false true key prev s)
        (λ next s'. session_sends session l next s')
        (λ next s'. deliveries redis jsonpb true key l next s') prev
        (λ next s'. session_sends-deliveries session l next s')

module _ {S : Type 0} (redis : Redis S) (jsonpb : Jsonpb) (laws : StreamLaws redis)
    (up : IsUp redis) where
  -- Requests of any services and processes, in any order with the rounds of a watcher of the
  -- stream on which the process `number` of `ms_name` puts what it has finished; on a server that
  -- answers, on an empty stream, with kanbans that JSON keeps and never 50 of them waiting. The
  -- watcher gets the kanbans that this service sent with this number, no other, in the order of the
  -- requests; and what a request does to the store is the write that stands for it there, answered
  -- with a success exactly if it has no error.
  pub finished-deliveries :
      (delete_old : Bool) (ms_name : String) (number : ℤ) (l : List Event) (s : S)
      → laws.after s (get_stream_key_by_status_type ms_name number after) init_prev_id ≡ []
      → AllSurvive redis jsonpb (actions l)
      → Fits (get_stream_key_by_status_type ms_name number after) (actions l) []
      → (map
            (λ (a : AdaptorKanban). a.kanban)
            (deliveries redis jsonpb delete_old
              (get_stream_key_by_status_type ms_name number after)
              (actions l)
              init_prev_id
              s)
          ≡ map some (finished ms_name number l []))
        × ((name : String) (k : StatusKanban) (t : S)
            → send_kanban
                (new_redis_adapter redis jsonpb)
                (record { microservice_name = name; message = some k })
                t
              ≡ some (
                (write_kanban redis jsonpb (out_key name k) (some k) t).0,
                response (write_kanban redis jsonpb (out_key name k) (some k) t).1,
              ))
  unfolding send_kanban new_redis_adapter
  finished-deliveries delete_old ms_name number l s fresh fine room = (
    deliveries-fifo redis jsonpb laws up delete_old
          (get_stream_key_by_status_type ms_name number after) (actions l) s fresh fine room
        ∙ ap (map some) (fifo-finished ms_name number l []),
    λ name k t. refl,
  )

  abbrev Opens : String → String → List Action → S → InitializeService → Type 0
  Opens now data_path l s m =
      laws.after s (in_key m) init_prev_id ≡ []
      → All (Survives redis jsonpb) (first_of redis jsonpb now data_path m)
      → AllSurvive redis jsonpb l
      → Fits (in_key m) l (first_of redis jsonpb now data_path m)
      → map (λ (a : AdaptorKanban). a.kanban) (served redis jsonpb now data_path m l s)
        ≡ map some (fifo (in_key m) l (first_of redis jsonpb now data_path m))

  of_type :
      (now data_path name : String) (number : ℤ) (l : List Action) (s : S) (t : InitializeType)
      → Opens now data_path l s
          (record { init_type = t; microservice_name = name; process_number = number })
  unfolding served new_microservice_session set_kanban new_redis_adapter deliveries watched_key
      new_session
  of_type now data_path name number l s start_service fresh first fine room =
      ap (map (λ (a : AdaptorKanban). a.kanban)) (
        session_sends-deliveries redis jsonpb
          (new_session (new_redis_adapter redis jsonpb) name number data_path) l init_prev_id s)
      ∙ deliveries-fifo redis jsonpb laws up true (get_stream_key_by_status_type name number before)
          l s fresh fine room
  of_type now data_path name number l s (unknown_type n) fresh first fine room =
      ap (map (λ (a : AdaptorKanban). a.kanban)) (
        session_sends-deliveries redis jsonpb
          (new_session (new_redis_adapter redis jsonpb) name number data_path) l init_prev_id s)
      ∙ deliveries-fifo redis jsonpb laws up true (get_stream_key_by_status_type name number before)
          l s fresh fine room
  of_type now data_path name number l s start_service_without_kanban fresh (first, none_left) fine
        room =
      let io = new_redis_adapter redis jsonpb in
      let key = get_stream_key_by_status_type name number before in
      let k = initial_kanban io now (new_session io name number data_path) in
      let same : str_eq key key ≡ true = ground (arith, eq_iff key key) in
      let empty : 0 < max_len = omega arith in
      let room' : Fits key (write key k ∷ l) [] = rw same (empty, room) in
      ap (map (λ (a : AdaptorKanban). a.kanban)) (
        session_sends-deliveries redis jsonpb
          (new_session (new_redis_adapter redis jsonpb) name number data_path) l init_prev_id
          (write_kanban redis jsonpb key (some k) s).0)
      ∙ deliveries-fifo redis jsonpb laws up true key (write key k ∷ l) s fresh (first, fine) room'
      ∙ ap (map some) (rw same refl)

  -- A session on an empty stream of its service, with the same conditions on the server and on the
  -- kanbans that follow: its watcher sends the service the kanbans that are written to the stream
  -- for what goes into this process, first in first out, behind the initial kanban if the service
  -- asked to start without one.
  pub session-deliveries :
      (now data_path : String) (m : InitializeService) (l : List Action) (s : S)
      → laws.after s (in_key m) init_prev_id ≡ []
      → All (Survives redis jsonpb) (first_of redis jsonpb now data_path m)
      → AllSurvive redis jsonpb l
      → Fits (in_key m) l (first_of redis jsonpb now data_path m)
      → map (λ (a : AdaptorKanban). a.kanban) (served redis jsonpb now data_path m l s)
        ≡ map some (fifo (in_key m) l (first_of redis jsonpb now data_path m))
  session-deliveries now data_path m l s =
      of_type now data_path m.microservice_name m.process_number l s m.init_type
