-- ===== src/Tests/Workers.antt =====
-- Workers, modes, the replicator and the client library at concrete inputs.
use aion_core.Config.Types.{Microservice}
use aion_core.Config.Project.{
  set_initialize_value, initialize_microservice, initialize_microservices, get_microservice_list,
}
use aion_core.Replicator.{start_watch_kanban}
use aion_core.Replicator.Watched.{Started, BothStarted, start_watch_kanban-BothStarted}
use aion_core.Tests.Project.{camera}
use aion_core.Prelude.{
  ◌≤◌, arith, ℕ, String, true, false, List, [], ◌∷◌, ◌++◌, map, Dict, lookup, Option, none, some,
  ◌≡◌, ◌⊎◌, map_option, refl,
}
use aion_core.Prelude.Int.{pos, pos_part}
use aion_core.Kanban.Types.{Fields, end, field, string_value, struct_value, StatusKanban}
use aion_core.Kanban.Keys.{after, get_stream_key_by_status_type}
use aion_core.Kanban.Store.{AdaptorKanban}
use aion_core.Broker.Main.{
  Config, get_mode, is_default_mode, is_worker_mode, default_mode, master_mode, worker_mode, tasks,
  master_server, worker_status_monitor, worker_client, default_server,
}
use aion_core.Broker.Modes.{get_mode_lem}
use aion_core.Services.Workers.{NodeMeta, new_worker_watcher, sends}
use aion_core.Services.WorkerLaws.{
  Event, joins, reports, leaves, view, last_status, stream_of_device, present,
  view-new_worker_watcher,
}
use aion_core.Replicator.{Item, goes_on, panics, watch_microservice, unpack_struct}
use aion_core.Replicator.Copies.{
  add_copies, pack_value, watch_microservice-copies, unpack_struct-pack_value,
}
use aion_core.Tests.Project.{office, office_setting}
use aion_core.Tests.Queues.{plain}

abbrev env_of : String → Config
env_of mode = record {
  env = record {
    aion_home = "/var/lib/aion";
    redis_addr = "localhost:6379";
    repository_prefix = "latonaio";
    namespace = "default";
    registry_secret = "dockerhub";
    mode = mode;
    node_name = "localhost";
    node_ip = "127.0.0.1";
    debug = "false";
  };
  config_path = "./yaml/sample.yml";
}

get_mode_lem_example :
    ((get_mode (env_of "Master") ≡ default_mode)
      × (is_default_mode (env_of "Master") ≡ true)
      × (is_worker_mode (env_of "Master") ≡ false)
      × (tasks (env_of "Master") ≡ default_server ∷ []))
    ⊎ ((get_mode (env_of "Master") ≡ master_mode)
        × (is_default_mode (env_of "Master") ≡ false)
        × (is_worker_mode (env_of "Master") ≡ false)
        × (tasks (env_of "Master") ≡ master_server ∷ worker_status_monitor ∷ []))
    ⊎ ((get_mode (env_of "Master") ≡ worker_mode)
        × (is_default_mode (env_of "Master") ≡ false)
        × (is_worker_mode (env_of "Master") ≡ true)
        × (tasks (env_of "Master") ≡ worker_client ∷ []))
get_mode_lem_example = get_mode_lem (env_of "Master")

abbrev says : NodeMeta
says = record {
  node_ip = "10.0.0.2";
  node_name = "desk";
  services_status = some (("camera", true) ∷ []);
}

abbrev a_day : List (Event ℕ)
a_day =
    joins "desk/10.0.0.2" 1
    ∷ reports "desk/10.0.0.2" says
    ∷ joins "door/10.0.0.3" 2
    ∷ leaves "desk/10.0.0.2"
    ∷ []

view-new_worker_watcher_example :
    ((name : String)
      → lookup name (view a_day new_worker_watcher).services_status ≡ last_status name a_day none)
    × (sends office.devices (view a_day new_worker_watcher)
        ≡ present (map (stream_of_device a_day) office.devices))
view-new_worker_watcher_example = view-new_worker_watcher a_day office.devices

-- A collection that takes every document.
abbrev add_document : Dict Item → List (Dict Item) → List (Dict Item)
add_document d s = d ∷ s

abbrev insert_document : Dict Item → List (Dict Item) → Option (List (Dict Item))
insert_document d s = some (d ∷ s)

abbrev two_read : List AdaptorKanban
two_read =
    record { id = "1"; kanban = some (plain "a") }
    ∷ record { id = "2"; kanban = some (plain "b") }
    ∷ []

watch_microservice-copies_example :
    (watch_microservice insert_document "camera" (pos 1) after two_read []
      ≡ goes_on (
          add_copies add_document
            (get_stream_key_by_status_type "camera" (pos 1) after)
            two_read
            []))
    × ((id : String) (k : StatusKanban) (rest : List AdaptorKanban)
        → k.metadata ≡ none
        → watch_microservice insert_document "camera"
            (pos 1)
            after
            (two_read ++ (record { id = id; kanban = some k } ∷ rest))
            []
          ≡ panics)
watch_microservice-copies_example =
    watch_microservice-copies insert_document add_document "camera" (pos 1) after two_read []
      (λ d s. refl) ((plain "a", end, refl, refl), ((plain "b", end, refl, refl), tt))

abbrev nested : Fields
nested = field "type" (string_value "x") (field "in" (struct_value end) end)

unpack_struct-pack_value_example :
    map_option pack_value (unpack_struct (some nested)) ≡ map_option struct_value (some nested)
unpack_struct-pack_value_example = unpack_struct-pack_value (some nested)

abbrev watched_in : Option (List Started) → List Started
watched_in none = []
watched_in (some l) = l

abbrev office_watched : List Started
office_watched = watched_in (start_watch_kanban office_setting)

abbrev office_camera : Microservice
office_camera = initialize_microservice camera

office_starts : start_watch_kanban office_setting ≡ some office_watched
unfolding start_watch_kanban set_initialize_value initialize_microservices
office_starts = refl

office_has : lookup "camera" (get_microservice_list office_setting) ≡ some (some office_camera)
unfolding lookup set_initialize_value initialize_microservices
office_has = refl

office_keeps : office_camera.without_kanban ≡ false
unfolding initialize_microservice
office_keeps = refl

office_scale : 2 ≤ pos_part office_camera.scale
unfolding initialize_microservice
office_scale = omega arith

start_watch_kanban-BothStarted_example : BothStarted "camera" 2 office_watched
start_watch_kanban-BothStarted_example =
    start_watch_kanban-BothStarted office_setting "camera" office_camera 2 office_watched
      office_starts office_has office_keeps (omega arith) office_scale
