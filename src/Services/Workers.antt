-- ===== src/Services/Workers.antt =====
-- internal/services/worker_watcher_service.go and cmd/service-broker/app/worker_status_monitor.go:
-- the master's view of its workers.
use aion_core.Prelude.{
  String, ◌<>◌, Bool, Option, none, some, List, [], ◌∷◌, Dict, lookup, insert, ok, err,
}
use aion_core.Config.Types.{Device, Project, AionSetting}
use aion_core.Redis.{Item, Redis, delete, h_set}

-- proto/clusterpb: the status is a map, which may be nil.
pub record NodeMeta : Type 0 where
  pub node_ip : String
  pub node_name : String
  pub services_status : Option (Dict Bool)

-- `T` are the streams to workers. `reported` is what went to the status monitor, newest first; a
-- message there is the map itself, here the map at the time of the send.
pub record WorkerWatcher (T : Type 0) : Type 0 where
  pub services_status : Dict (Option (Dict Bool))
  pub client_stream : Dict T
  pub reported : List (Dict (Option (Dict Bool)))

-- The pairs that came with a call: each key has a list of values.
abbrev pub Metadata : Type 0
Metadata = String → List String

-- What a call of `JoinMasterAion` comes to before its loop.
pub data Join (T : Type 0) : Type 0 where
  no_meta_data : Join T
  panics : Join T
  joined : String → WorkerWatcher T → Join T

unfoldable pub node_key : String → String → String
node_key name addr = name <> "/" <> addr

module _ {T : Type 0} where
  abbrev pub new_worker_watcher : WorkerWatcher T
  new_worker_watcher = record { services_status = []; client_stream = []; reported = [] }

  unfoldable pub register : String → T → WorkerWatcher T → WorkerWatcher T
  register node_name stream w = record w { client_stream = insert node_name stream w.client_stream }

  -- The name is that of the first values; without one the call panics.
  unfoldable pub join_named : List String → List String → T → WorkerWatcher T → Join T
  unfolding node_key register
  join_named (name ∷ names) (ip ∷ ips) stream w =
      joined (node_key name ip) (register (node_key name ip) stream w)
  join_named names ips stream w = panics

  unfoldable pub join_master_aion : Option Metadata → T → WorkerWatcher T → Join T
  unfolding join_named
  join_master_aion none stream w = no_meta_data
  join_master_aion (some md) stream w = join_named (md "NodeName") (md "NodeIP") stream w

  -- A round of its loop, with a message of the worker.
  unfoldable pub on_message : String → NodeMeta → WorkerWatcher T → WorkerWatcher T
  on_message node_name nm w =
      let status = insert node_name nm.services_status w.services_status in
      record w { services_status = status; reported = status ∷ w.reported }

  -- The end of the stream: the status is reset, and the monitor is not told.
  unfoldable pub on_close : String → WorkerWatcher T → WorkerWatcher T
  on_close node_name w = record w { services_status = insert node_name none w.services_status }

  -- The sends of a round of `SendAionSettingToWorker`, in order; an error of one is only logged.
  unfoldable pub sends : Dict Device → WorkerWatcher T → List T
  unfolding node_key
  sends [] w = []
  sends ((k, v) ∷ l) w =
      let rest = sends l w in
      elim (lookup (node_key k v.addr) w.client_stream) [
        | none ↦ rest
        | some stream ↦ stream ∷ rest
      ]

  -- Each stream gets the message that the setting holds.
  unfoldable pub send_aion_setting_to_worker : AionSetting → WorkerWatcher T → List T × Project
  unfolding sends
  send_aion_setting_to_worker aion_setting w =
      (sends aion_setting.aion.devices w, aion_setting.aion)

abbrev pub redis_key : String
redis_key = "aion-cluster-status"

-- `status_item` is the value that Redis gets for a map, its JSON.
module _ {S : Type 0} (redis : Redis S) (status_item : Dict Bool → Item) where
  -- A nil map is copied to an empty one.
  unfoldable pub service_map : Option (Dict Bool) → Item
  service_map none = status_item []
  service_map (some v) = status_item v

  unfoldable pub node_map : Dict (Option (Dict Bool)) → Dict Item
  unfolding service_map
  node_map [] = []
  node_map ((k, v) ∷ meta) = (k, service_map v) ∷ node_map meta

  -- The rounds with what the workers reported; the error of a write is only logged.
  unfoldable pub record_rounds : List (Dict (Option (Dict Bool))) → S → S
  unfolding node_map
  record_rounds [] s = s
  record_rounds (meta ∷ l) s = record_rounds l (h_set redis redis_key (node_map meta) s).0

  -- `Start`: an error of the first deletion ends the process, `none`.
  unfoldable pub start : List (Dict (Option (Dict Bool))) → S → Option S
  unfolding record_rounds
  start l s =
      let (s', r) = delete redis (redis_key ∷ []) s in
      elim r [ err e ↦ none | ok n ↦ some (record_rounds l s') ]
