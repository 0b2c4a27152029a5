-- ===== src/Kanban/Store.antt =====
-- internal/kanban/interface.go and internal/kanban/redis.go: kanbans on the streams of Redis.
use aion_core.Prelude.{
  String, Bool, true, false, if◌then◌else◌, [], ◌∷◌, Dict, lookup, Option, none, some, Result, ok,
  err,
}
use aion_core.Kanban.Types.{StatusKanban}
use aion_core.Redis.{Item, text, Redis, ReadError, x_read_one, x_add, x_del}

pub record AdaptorKanban : Type 0 where
  pub id : String
  -- a pointer, which may be nil
  pub kanban : Option StatusKanban

-- jsonpb, a library outside this repository: a nil message is an error there.
pub record Jsonpb : Type 0 where
  pub marshal_to_string : Option StatusKanban → Result String String
  pub unmarshal : String → Result String StatusKanban

pub data UnmarshalError : Type 0 where
  not_string : UnmarshalError
  cant_unmarshal : String → UnmarshalError

pub data WriteError : Type 0 where
  cant_marshal : String → WriteError
  cant_write : String → WriteError

abbrev pub init_prev_id : String
init_prev_id = "0"

-- What a round of `WatchKanban` comes to: the channel is closed, the read still waits, or a
-- message was read: the id to read from next, and what was sent on the channel.
pub data Watch : Type 0 where
  closed : Watch
  waiting : Watch
  read : String → Option AdaptorKanban → Watch

unfoldable pub decoded : Result String StatusKanban → Result UnmarshalError (Option StatusKanban)
decoded (err e) = err (cant_unmarshal e)
decoded (ok k) = ok (some k)

-- A nil map is a nil kanban and no error.
unfoldable pub unmarshal_kanban :
    Jsonpb → Option (Dict Item) → Result UnmarshalError (Option StatusKanban)
unfolding decoded
unmarshal_kanban jsonpb none = ok none
unmarshal_kanban jsonpb (some hash) = elim (lookup "kanban" hash) [
  | some (text str) ↦ decoded (jsonpb.unmarshal str)
  | _ ↦ err not_string
]

-- What goes on the channel: nothing if the kanban cannot be read.
unfoldable pub sent : String → Result UnmarshalError (Option StatusKanban) → Option AdaptorKanban
sent next_id (err e) = none
sent next_id (ok k) = some (record { id = next_id; kanban = k })

unfoldable pub written : {S : Type 0} → S × Option String → S × Option WriteError
written (s, none) = (s, none)
written (s, some e) = (s, some (cant_write e))

module _ {S : Type 0} (redis : Redis S) (jsonpb : Jsonpb) where
  unfoldable pub write_kanban : String → Option StatusKanban → S → S × Option WriteError
  unfolding written
  write_kanban stream_key kanban s = elim (jsonpb.marshal_to_string kanban) [
    | err e ↦ (s, some (cant_marshal e))
    | ok kanban_json ↦ written (x_add redis stream_key (("kanban", text kanban_json) ∷ []) s)
  ]

  -- The error of the deletion is only logged.
  unfoldable pub after_read :
      Bool → String → String → S → Result ReadError (Option (Dict Item) × String) → S × Watch
  after_read delete_old stream_key prev_id s (err e) = (s, closed)
  after_read delete_old stream_key prev_id s (ok (hash, next_id)) = (
    if delete_old then (x_del redis stream_key (prev_id ∷ []) s).0 else s,
    read next_id (sent next_id (unmarshal_kanban jsonpb hash)),
  )

  -- A round of the loop, on a context that is done or not.
  unfoldable pub watch_round : Bool → Bool → String → String → S → S × Watch
  unfolding after_read
  watch_round true delete_old stream_key prev_id s = (s, closed)
  watch_round false delete_old stream_key prev_id s =
      elim (x_read_one redis (stream_key ∷ []) (prev_id ∷ []) 1 0 s) [
        | none ↦ (s, waiting)
        | some answer ↦ after_read delete_old stream_key prev_id s answer
      ]

  unfoldable pub delete_kanban : String → String → S → S × Option String
  delete_kanban stream_key id s = x_del redis stream_key (id ∷ []) s

-- What the servers use of the store. `watch_round` is a round of `WatchKanban`.
pub record Adapter (S : Type 0) : Type 0 where
  pub write_kanban : String → Option StatusKanban → S → S × Option WriteError
  pub watch_round : Bool → Bool → String → String → S → S × Watch
  pub delete_kanban : String → String → S → S × Option String

unfoldable pub new_redis_adapter : {S : Type 0} → Redis S → Jsonpb → Adapter S
new_redis_adapter redis jsonpb = record {
  write_kanban = write_kanban redis jsonpb;
  watch_round = watch_round redis jsonpb;
  delete_kanban = delete_kanban redis jsonpb;
}
