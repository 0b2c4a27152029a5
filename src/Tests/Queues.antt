-- ===== src/Tests/Queues.antt =====
-- The kanban store, its queues and the kanban server at concrete inputs.
use aion_core.Prelude.{
  String, true, false, List, [], ◌∷◌, ◌++◌, map, Option, none, some, Result, ok, err, ◌≡◌, refl,
  arith,
}
use aion_core.Prelude.Int.{pos}
use aion_core.Prelude.Decimal.{pad3, itoa}
use aion_core.Filepath.{get_ms_data_path}
use aion_core.Kanban.Types.{end, StatusKanban}
use aion_core.Kanban.Keys.{after, get_stream_key_by_status_type}
use aion_core.Kanban.Store.{AdaptorKanban, Jsonpb, init_prev_id, new_redis_adapter, write_kanban}
use aion_core.Kanban.Queue.{Action, write, round, fifo, Survives, deliveries}
use aion_core.Kanban.Refines.{deliveries-fifo}
use aion_core.Kanban.Drains.{written_to, rounds, deliveries-written_to}
use aion_core.KanbanServer.{
  start_service_without_kanban, InitializeService, initial_kanban, new_session, response,
  send_kanban,
}
use aion_core.KanbanServer.Sessions.{
  Event, request, look, actions, out_key, finished, first_of, in_key, served, finished-deliveries,
  session-deliveries,
}
use aion_core.Tests.Store.{Streams, memory, memory_laws, memory-IsUp, no_streams, nothing_there}

-- A kanban that differs from others in its data path only, which is all that is printed.
abbrev pub plain : String → StatusKanban
plain path = record {
  start_at = "now";
  finish_at = "";
  next_device_name = "";
  connection_key = "";
  process_number = pos 1;
  prior_success = false;
  data_path = path;
  file_list = [];
  metadata = some end;
}

abbrev path_of : Option StatusKanban → Result String String
path_of none = err "nil"
path_of (some k) = ok k.data_path

abbrev pub paths : Jsonpb
paths = record { marshal_to_string = path_of; unmarshal = λ t. ok (plain t) }

survives : (t : String) → Survives memory paths (plain t)
survives t = (t, refl, refl)

abbrev some_actions : List Action
some_actions =
    round
    ∷ write "q" (plain "a")
    ∷ write "r" (plain "b")
    ∷ write "q" (plain "c")
    ∷ round
    ∷ round
    ∷ round
    ∷ []

test_fifo : fifo "q" some_actions [] ≡ plain "a" ∷ plain "c" ∷ []
test_fifo = refl

deliveries-fifo_example :
    map
      (λ (a : AdaptorKanban). a.kanban)
      (deliveries memory paths true "q" some_actions init_prev_id no_streams)
    ≡ map some (fifo "q" some_actions [])
deliveries-fifo_example =
    deliveries-fifo memory paths memory_laws memory-IsUp true "q" some_actions no_streams
      (nothing_there "q") (survives "a", (survives "b", (survives "c", tt)))
      (omega arith, (omega arith, tt))

abbrev some_events : List Event
some_events = request "camera" (plain "a") ∷ request "robot" (plain "b") ∷ look ∷ look ∷ []

finished-deliveries_example :
    (map
        (λ (a : AdaptorKanban). a.kanban)
        (deliveries memory paths false
          (get_stream_key_by_status_type "camera" (pos 1) after)
          (actions some_events)
          init_prev_id
          no_streams)
      ≡ map some (finished "camera" (pos 1) some_events []))
    × ((name : String) (k : StatusKanban) (t : Streams)
        → send_kanban
            (new_redis_adapter memory paths)
            (record { microservice_name = name; message = some k })
            t
          ≡ some (
            (write_kanban memory paths (out_key name k) (some k) t).0,
            response (write_kanban memory paths (out_key name k) (some k) t).1,
          ))
unfolding get_stream_key_by_status_type pad3 itoa
finished-deliveries_example =
    finished-deliveries memory paths memory_laws memory-IsUp false "camera" (pos 1) some_events
      no_streams (nothing_there (get_stream_key_by_status_type "camera" (pos 1) after))
      (survives "a", (survives "b", tt)) (omega arith, tt)

abbrev joins : InitializeService
joins = record {
  init_type = start_service_without_kanban;
  microservice_name = "camera";
  process_number = pos 1;
}

Survives-first : Survives memory paths (
    initial_kanban
      (new_redis_adapter memory paths)
      "now"
      (record { microservice_name = "camera"; process_number = pos 1; data_path = "/data" }))
unfolding initial_kanban
Survives-first = (get_ms_data_path "/data" "camera" (pos 1), refl, refl)

session-deliveries_example :
    map
      (λ (a : AdaptorKanban). a.kanban)
      (served memory paths "now" "/data" joins (round ∷ round ∷ []) no_streams)
    ≡ map some
        (fifo (in_key joins) (round ∷ round ∷ []) (first_of memory paths "now" "/data" joins))
unfolding new_session
session-deliveries_example =
    session-deliveries memory paths memory_laws memory-IsUp "now" "/data" joins (round ∷ round ∷ [])
      no_streams (nothing_there (in_key joins)) (Survives-first, tt) tt tt

deliveries-written_to_example :
    map
      (λ (a : AdaptorKanban). a.kanban)
      (deliveries memory paths true "q" (some_actions ++ rounds 2) init_prev_id no_streams)
    ≡ map some (written_to "q" some_actions)
deliveries-written_to_example =
    deliveries-written_to memory paths memory_laws memory-IsUp true "q" some_actions 2 no_streams
      (nothing_there "q") (survives "a", (survives "b", (survives "c", tt)))
      (omega arith, (omega arith, tt)) (omega arith)
