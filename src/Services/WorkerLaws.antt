-- ===== src/Services/WorkerLaws.antt =====
-- The master's view of its workers, internal/services/worker_watcher_service.go, after any
-- interleaving of their calls.
use aion_core.Prelude.{
  String, Bool, Option, none, some, List, [], ◌∷◌, map, Dict, lookup, lookup-insert, ◌≡◌, refl, ap,
  ◌∙◌, str_eq, if◌then◌else◌, arith,
}
use aion_core.Config.Types.{Device}
use aion_core.Services.Workers.{
  NodeMeta, WorkerWatcher, new_worker_watcher, node_key, register, on_message, on_close, sends,
}

-- What the workers' calls do, in the order in which they take the lock.
pub data Event (T : Type 0) : Type 0 where
  joins : String → T → Event T
  reports : String → NodeMeta → Event T
  leaves : String → Event T

module _ {T : Type 0} where
  abbrev pub view : List (Event T) → WorkerWatcher T → WorkerWatcher T
  view [] w = w
  view (joins name stream ∷ l) w = view l (register name stream w)
  view (reports name nm ∷ l) w = view l (on_message name nm w)
  view (leaves name ∷ l) w = view l (on_close name w)

  -- What a worker last said of its services: nothing, if it left after that.
  abbrev pub last_status :
      String → List (Event T) → Option (Option (Dict Bool)) → Option (Option (Dict Bool))
  last_status name [] o = o
  last_status name (joins other stream ∷ l) o = last_status name l o
  last_status name (reports other nm ∷ l) o =
      last_status name l (if str_eq other name then some nm.services_status else o)
  last_status name (leaves other ∷ l) o =
      last_status name l (if str_eq other name then some none else o)

  -- The stream that a worker last joined with, whether or not it left.
  abbrev pub last_stream : String → List (Event T) → Option T → Option T
  last_stream name [] o = o
  last_stream name (joins other stream ∷ l) o =
      last_stream name l (if str_eq other name then some stream else o)
  last_stream name (reports other nm ∷ l) o = last_stream name l o
  last_stream name (leaves other ∷ l) o = last_stream name l o

  status-from :
      (name : String) (l : List (Event T)) (w : WorkerWatcher T)
      → lookup name (view l w).services_status ≡ last_status name l (lookup name w.services_status)
  unfolding register on_message on_close
  status-from name [] w = refl
  status-from name (joins other stream ∷ l) w = status-from name l (register other stream w)
  status-from name (reports other nm ∷ l) w =
      status-from name l (on_message other nm w)
      ∙ ap (last_status name l) (lookup-insert other name nm.services_status w.services_status)
  status-from name (leaves other ∷ l) w =
      status-from name l (on_close other w)
      ∙ ap (last_status name l) (lookup-insert other name none w.services_status)

  stream-from :
      (name : String) (l : List (Event T)) (w : WorkerWatcher T)
      → lookup name (view l w).client_stream ≡ last_stream name l (lookup name w.client_stream)
  unfolding register on_message on_close
  stream-from name [] w = refl
  stream-from name (joins other stream ∷ l) w =
      stream-from name l (register other stream w)
      ∙ ap (last_stream name l) (lookup-insert other name stream w.client_stream)
  stream-from name (reports other nm ∷ l) w = stream-from name l (on_message other nm w)
  stream-from name (leaves other ∷ l) w = stream-from name l (on_close other w)

  -- The values that are there, in order.
  abbrev pub present : List (Option T) → List T
  present [] = []
  present (none ∷ l) = present l
  present (some t ∷ l) = t ∷ present l

  abbrev pub stream_of_device : List (Event T) → String × Device → Option T
  stream_of_device l d = last_stream (node_key d.0 d.1.addr) l none

  sends-present :
      (devices : Dict Device) (l : List (Event T))
      → sends devices (view l new_worker_watcher) ≡ present (map (stream_of_device l) devices)
  unfolding sends lookup
  sends-present [] l = refl
  sends-present ((k, v) ∷ devices) l =
      let key = node_key k v.addr in
      let ih = sends-present devices l in
      let here = stream-from key l new_worker_watcher in ground (arith, ih, here)

  -- After any interleaving of the calls of any workers: the status of each worker is what it last
  -- said, and is reset if it left after that; and a setting goes, for each of its devices in order,
  -- to the stream that joined last under the device's name and address, if any did, even if that
  -- worker has left.
  pub view-new_worker_watcher :
      (l : List (Event T)) (devices : Dict Device)
      → ((name : String)
          → lookup name (view l new_worker_watcher).services_status ≡ last_status name l none)
        × (sends devices (view l new_worker_watcher) ≡ present (map (stream_of_device l) devices))
  unfolding lookup
  view-new_worker_watcher l devices =
      (λ name. status-from name l new_worker_watcher, sends-present devices l)
