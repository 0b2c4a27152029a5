-- ===== src/Kanban/Queue.antt =====
-- The streams of internal/kanban/redis.go as first-in first-out queues.
use aion_core.Prelude.{
  ℕ, ◌<◌, String, Bool, false, if◌then◌else◌, List, [], ◌∷◌, ◌++◌, length, Dict, none, some, ok,
  err, ◌≡◌, ◌≢◌, str_eq,
}
use aion_core.Kanban.Types.{StatusKanban}
use aion_core.Redis.{Item, XStream, Redis, max_len}
use aion_core.Kanban.Store.{
  AdaptorKanban, Jsonpb, init_prev_id, Watch, closed, waiting, read, write_kanban, watch_round,
}

abbrev pub Entry : Type 0
Entry = String × Dict Item

-- What the documentation of XADD, XREAD and XDEL says of one stream. `after s key id` are the
-- entries behind `id`, in the order of their ids; `Known s key id` says that `id` is not ahead of
-- the stream.
pub record StreamLaws {S : Type 0} (redis : Redis S) : Type 1 where
  pub after : S → String → String → List Entry
  pub Known : S → String → String → Type 0
  pub known_zero : (s : S) (key : String) → Known s key init_prev_id
  -- behind the first entry behind `id` are the others
  pub known_next :
      (s : S) (key id i : String) (v : Dict Item) (rest : List Entry)
      → Known s key id
      → after s key id ≡ (i, v) ∷ rest
      → Known s key i × (after s key i ≡ rest)
  -- XREAD waits only where there is nothing to read, and gives the first entry otherwise
  pub read_waits :
      (s : S) (key id : String) → redis.xread (key ∷ id ∷ []) 1 0 s ≡ none → after s key id ≡ []
  pub read_gives :
      (s : S) (key id : String) (l : List XStream)
      → redis.xread (key ∷ id ∷ []) 1 0 s ≡ some (ok l)
      → (i : String) × (v : Dict Item) × (rest : List Entry) × (after s key id ≡ (i, v) ∷ rest)
        × (l ≡ record { stream = key; messages = record { id = i; values = some v } ∷ [] } ∷ [])
  -- XADD puts an entry behind the others, and MAXLEN evicts none of those that, with the new one,
  -- are the newest `max`
  pub add_here :
      (s : S) (key id new : String) (max : ℕ) (v : Dict Item)
      → (redis.xadd key max v s).1 ≡ ok new
      → Known s key id
      → length (after s key id) < max
      → after (redis.xadd key max v s).0 key id ≡ after s key id ++ ((new, v) ∷ [])
  pub add_elsewhere :
      (s : S) (key other id : String) (max : ℕ) (v : Dict Item)
      → other ≢ key
      → after (redis.xadd other max v s).0 key id ≡ after s key id
  pub add_known :
      (s : S) (key other id : String) (max : ℕ) (v : Dict Item)
      → Known s key id
      → Known (redis.xadd other max v s).0 key id
  -- XDEL of an entry leaves those behind it
  pub del_read :
      (s : S) (key id i : String) (v : Dict Item) (rest : List Entry)
      → Known s key id
      → after s key id ≡ (i, v) ∷ rest
      → Known (redis.xdel key (id ∷ []) s).0 key i
        × (after (redis.xdel key (id ∷ []) s).0 key i ≡ rest)

-- A server that answers: no write and no read fails.
pub record IsUp {S : Type 0} (redis : Redis S) : Type 0 where
  pub adds :
      (s : S) (key : String) (max : ℕ) (v : Dict Item)
      → (new : String) × ((redis.xadd key max v s).1 ≡ ok new)
  pub reads :
      (s : S) (keys : List String) (count block : ℕ) (e : String)
      → redis.xread keys count block s ≢ some (err e)

-- What happens around one watched stream: a kanban is written to a stream, this one or another, or
-- the watcher of the stream makes a round of its loop.
pub data Action : Type 0 where
  write : String → StatusKanban → Action
  round : Action

-- The queue a stream stands for.
abbrev pub fifo : String → List Action → List StatusKanban → List StatusKanban
fifo key [] q = []
fifo key (write other k ∷ l) q =
    if str_eq other key then fifo key l (q ++ (k ∷ [])) else fifo key l q
fifo key (round ∷ l) [] = fifo key l []
fifo key (round ∷ l) (k ∷ q) = k ∷ fifo key l q

-- At each write to the stream fewer than 50 kanbans of it wait.
abbrev pub Fits : String → List Action → List StatusKanban → Type 0
Fits key [] q = Unit
Fits key (write other k ∷ l) q =
    if str_eq other key then (length q < max_len) × Fits key l (q ++ (k ∷ [])) else Fits key l q
Fits key (round ∷ l) [] = Fits key l []
Fits key (round ∷ l) (k ∷ q) = Fits key l q

module _ {S : Type 0} (redis : Redis S) (jsonpb : Jsonpb) where
  abbrev pub Survives : StatusKanban → Type 0
  Survives k =
      (t : String) × (jsonpb.marshal_to_string (some k) ≡ ok t) × (jsonpb.unmarshal t ≡ ok k)

  -- The kanbans that are written can be printed, and read back as they were.
  abbrev pub AllSurvive : List Action → Type 0
  AllSurvive [] = Unit
  AllSurvive (write other k ∷ l) = Survives k × AllSurvive l
  AllSurvive (round ∷ l) = AllSurvive l

  -- A round, and what the rounds after it send.
  abbrev pub then_sent : S × Watch → (String → S → List AdaptorKanban) → String → List AdaptorKanban
  then_sent (s, closed) rest prev = []
  then_sent (s, waiting) rest prev = rest prev s
  then_sent (s, read next none) rest prev = rest next s
  then_sent (s, read next (some a)) rest prev = a ∷ rest next s

  -- What the watcher of the stream `key` sends on its channel.
  unfoldable pub deliveries : Bool → String → List Action → String → S → List AdaptorKanban
  deliveries delete_old key [] prev s = []
  deliveries delete_old key (write other k ∷ l) prev s =
      deliveries delete_old key l prev (write_kanban redis jsonpb other (some k) s).0
  deliveries delete_old key (round ∷ l) prev s =
      then_sent (watch_round redis jsonpb false delete_old key prev s)
        (λ next s'. deliveries delete_old key l next s') prev
