-- ===== src/Redis.antt =====
-- pkg/my_redis/redis.go: the calls of the Redis client that the services share.
use aion_core.Prelude.{ℕ, String, List, [], ◌∷◌, ◌++◌, Dict, Option, none, some, Result, ok, err}

-- A value of a hash or of a message: go-redis takes and gives an `interface{}`.
pub data Item : Type 0 where
  text : String → Item
  other : Item

-- redis.XMessage and redis.XStream; a map may be nil.
pub record XMessage : Type 0 where
  pub id : String
  pub values : Option (Dict Item)

pub record XStream : Type 0 where
  pub stream : String
  pub messages : List XMessage

-- The client of go-redis v7, a library outside this repository, over the states `S` of the server.
-- `xread` blocks until there is something to read: `none` is a call that still waits.
pub record Redis (S : Type 0) : Type 0 where
  pub xadd : String → ℕ → Dict Item → S → S × Result String String
  pub xread : List String → ℕ → ℕ → S → Option (Result String (List XStream))
  pub xdel : String → List String → S → S × Result String ℕ
  pub hset : String → Dict Item → S → S × Result String ℕ
  pub hget_all : String → S → Result String (Dict String)
  pub del : List String → S → S × Result String ℕ
  pub flush_all : S → S × Result String String

pub data ReadError : Type 0 where
  cant_read : String → ReadError
  no_stream no_message : ReadError

-- The error of a call whose result is not used.
abbrev pub error_of : {A : Type 0} → Result String A → Option String
error_of (ok a) = none
error_of (err e) = some e

abbrev pub max_len : ℕ
max_len = 50

unfoldable pub first_message : List XStream → Result ReadError (Option (Dict Item) × String)
first_message [] = err no_stream
first_message (s ∷ l) = elim s.messages [ [] ↦ err no_message | m ∷ ms ↦ ok (m.values, m.id) ]

unfoldable pub read_answer :
    Result String (List XStream) → Result ReadError (Option (Dict Item) × String)
unfolding first_message
read_answer (err e) = err (cant_read e)
read_answer (ok l) = first_message l

module _ {S : Type 0} (redis : Redis S) where
  x_read : List String → List String → ℕ → ℕ → S → Option (Result String (List XStream))
  x_read stream_keys ids count block s = redis.xread (stream_keys ++ ids) count block s

  -- `none` is a call that still waits.
  unfoldable pub x_read_one :
      List String
      → List String
      → ℕ
      → ℕ
      → S
      → Option (Result ReadError (Option (Dict Item) × String))
  unfolding read_answer
  x_read_one stream_keys ids count block s = elim (redis.xread (stream_keys ++ ids) count block s) [
    | none ↦ none
    | some r ↦ some (read_answer r)
  ]

  unfoldable pub x_add : String → Dict Item → S → S × Option String
  x_add stream_key value s = let (s', r) = redis.xadd stream_key max_len value s in (s', error_of r)

  unfoldable pub x_del : String → List String → S → S × Option String
  x_del stream_key ids s = let (s', r) = redis.xdel stream_key ids s in (s', error_of r)

  unfoldable pub h_get : String → S → Result String (Dict String)
  h_get key s = redis.hget_all key s

  unfoldable pub h_set : String → Dict Item → S → S × Result String ℕ
  h_set key value s = redis.hset key value s

  unfoldable pub delete : List String → S → S × Result String ℕ
  delete keys s = redis.del keys s

  unfoldable pub flush : S → S × Option String
  flush s = let (s', r) = redis.flush_all s in (s', error_of r)
