-- ===== src/Replicator.antt =====
-- cmd/kanban-replicator/app/: the copies of kanbans in MongoDB.
pub mod Copies
pub mod Watched
use aion_core.Prelude.{
  ℕ, zero, suc, ◌+◌, String, Bool, true, false, if◌then◌else◌, Option, none, some, List, [], ◌∷◌,
  ◌++◌, Dict,
}
use aion_core.Prelude.Int.{ℤ, pos, pos_part}
use aion_core.Prelude.Decimal.{pad3}
use aion_core.Config.Types.{Microservice, AionSetting}
use aion_core.Config.Project.{get_microservice_list}
use aion_core.Kanban.Types.{
  Value, null_value, number_value, string_value, bool_value, struct_value, list_value, no_kind,
  Fields, end, field, Values, nil, cons, StatusKanban,
}
use aion_core.Kanban.Keys.{join_colon, StatusType, before, after, static}
use aion_core.Kanban.Store.{AdaptorKanban}

-- What goes into the database, an `interface{}`: `nil_item` is nil, and `null_item` the number 0 of the
-- enumeration NullValue.
mutual
  pub data Item : Type 0 where
    string_item : String → Item
    number_item : ℕ → Item
    integer_item : ℤ → Item
    bool_item : Bool → Item
    null_item nil_item : Item
    object_item : Entries → Item
    array_item : Items → Item

  pub data Entries : Type 0 where
    no_entries : Entries
    entry : String → Item → Entries → Entries

  pub data Items : Type 0 where
    no_items : Items
    item : Item → Items → Items

-- watcher.go, `getStreamKey`
unfoldable pub get_stream_key : String → ℤ → StatusType → String
unfolding join_colon
get_stream_key ms_name number before = join_colon ("kanban" ∷ "before" ∷ ms_name ∷ pad3 number ∷ [])
get_stream_key ms_name number after = join_colon ("kanban" ∷ "after" ∷ ms_name ∷ pad3 number ∷ [])
get_stream_key ms_name number static = ""

-- `unpackStruct` of a value, of the fields of a struct and of the values of a list. The nested
-- struct or list of a value is there; a nil pointer in its place is a panic in the source.
unfoldable mutual
  pub unpack_value : Value → Item
  unpack_value null_value = null_item
  unpack_value (number_value n) = number_item n
  unpack_value (string_value s) = string_item s
  unpack_value (bool_value b) = bool_item b
  unpack_value (struct_value f) = object_item (unpack_fields f)
  unpack_value (list_value l) = array_item (unpack_values l)
  unpack_value no_kind = nil_item

  pub unpack_fields : Fields → Entries
  unpack_fields end = no_entries
  unpack_fields (field k x f) = entry k (unpack_value x) (unpack_fields f)

  pub unpack_values : Values → Items
  unpack_values nil = no_items
  unpack_values (cons x l) = item (unpack_value x) (unpack_values l)

-- `unpackStruct` of the metadata, a pointer: a nil one panics, `none`.
unfoldable pub unpack_struct : Option Fields → Option Item
unfolding unpack_fields
unpack_struct none = none
unpack_struct (some f) = some (object_item (unpack_fields f))

unfoldable pub strings : List String → Items
strings [] = no_items
strings (s ∷ l) = item (string_item s) (strings l)

-- The document of a kanban.
unfoldable pub document : StatusKanban → String → Item → Dict Item
unfolding strings
document k stream_key metadata =
    ("streamKey", string_item stream_key)
    ∷ ("startAt", string_item k.start_at)
    ∷ ("finishAt", string_item k.finish_at)
    ∷ ("nextDeviceName", string_item k.next_device_name)
    ∷ ("connectionKey", string_item k.connection_key)
    ∷ ("processNumber", integer_item k.process_number)
    ∷ ("priorSuccess", bool_item k.prior_success)
    ∷ ("dataPath", string_item k.data_path)
    ∷ ("fileList", array_item (strings k.file_list))
    ∷ ("metadata", metadata)
    ∷ []

-- How a round over the kanbans of a stream ends: the next one, a panic, or the end of the process.
pub data Outcome (S : Type 0) : Type 0 where
  goes_on : S → Outcome S
  panics : Outcome S
  exits : Outcome S

-- `insert_one` is MongoDB's InsertOne on the collection: the collection after it, or an error,
-- which ends the process.
module _ {S : Type 0} (insert_one : Dict Item → S → Option S) where
  unfoldable pub inserted : Option S → Outcome S
  inserted none = exits
  inserted (some s) = goes_on s

  unfoldable pub write_kanban_mongo : Option StatusKanban → String → S → Outcome S
  unfolding inserted document unpack_struct
  write_kanban_mongo none stream_key s = panics
  write_kanban_mongo (some k) stream_key s = elim (unpack_struct k.metadata) [
    | none ↦ panics
    | some metadata ↦ inserted (insert_one (document k stream_key metadata) s)
  ]

  unfoldable pub then_copy : Outcome S → (S → Outcome S) → Outcome S
  then_copy (goes_on s) rest = rest s
  then_copy panics rest = panics
  then_copy exits rest = exits

  -- The loop of `WatchMicroservice` over what the watcher of the store sends.
  unfoldable pub watch_microservice : String → ℤ → StatusType → List AdaptorKanban → S → Outcome S
  unfolding then_copy write_kanban_mongo get_stream_key
  watch_microservice ms_name ms_number status_type [] s = goes_on s
  watch_microservice ms_name ms_number status_type (k ∷ ks) s =
      then_copy (write_kanban_mongo k.kanban (get_stream_key ms_name ms_number status_type) s)
        (λ s'. watch_microservice ms_name ms_number status_type ks s')

-- client.go: the watchers that a setting starts, for `n` numbers from `i` on.
unfoldable pub watch_numbers : String → ℕ → ℕ → List (String × ℤ × StatusType)
watch_numbers ms_name i zero = []
watch_numbers ms_name i (suc n) =
    (ms_name, pos i, after) ∷ (ms_name, pos i, before) ∷ watch_numbers ms_name (i + 1) n

-- A service that is a nil pointer panics: `none`.
unfoldable pub watch_services : Dict (Option Microservice) → Option (List (String × ℤ × StatusType))
unfolding watch_numbers
watch_services [] = some []
watch_services ((ms_name, none) ∷ l) = none
watch_services ((ms_name, some ms_data) ∷ l) = elim (watch_services l) [
  | none ↦ none
  | some rest ↦ some (
      (if ms_data.without_kanban then [] else watch_numbers ms_name 1 (pos_part ms_data.scale))
      ++ rest)
]

-- A round of `StartWatchKanban` with a new setting: the watchers of the setting before are
-- cancelled, so those of this one are the ones that run.
unfoldable pub start_watch_kanban : AionSetting → Option (List (String × ℤ × StatusType))
unfolding watch_services
start_watch_kanban ya = watch_services (get_microservice_list ya)
