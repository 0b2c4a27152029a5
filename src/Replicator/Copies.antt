-- ===== src/Replicator/Copies.antt =====
-- What cmd/kanban-replicator/app/ copies, and what stops it.
use aion_core.Prelude.{
  String, Option, none, some, List, [], ◌∷◌, ◌++◌, All, Dict, map_option, ◌≡◌, refl, ap, ◌∙◌,
}
use aion_core.Prelude.Int.{ℤ}
use aion_core.Kanban.Types.{
  Value, null_value, number_value, string_value, bool_value, struct_value, list_value, no_kind,
  Fields, end, field, Values, nil, cons, StatusKanban,
}
use aion_core.Kanban.Keys.{StatusType, before, after, static, get_stream_key_by_status_type}
use aion_core.Kanban.Store.{AdaptorKanban}
use aion_core.Replicator.{
  Item, string_item, number_item, integer_item, bool_item, null_item, nil_item, object_item,
  array_item, Entries, no_entries, entry, Items, no_items, item, get_stream_key, unpack_value,
  unpack_fields, unpack_values, unpack_struct, document, goes_on, panics, inserted,
  write_kanban_mongo, then_copy, watch_microservice,
}

-- Both components name a stream the same way.
same_key :
    (name : String) (n : ℤ) (t : StatusType)
    → get_stream_key name n t ≡ get_stream_key_by_status_type name n t
unfolding get_stream_key get_stream_key_by_status_type
same_key name n before = refl
same_key name n after = refl
same_key name n static = refl

-- A kanban that is there, with metadata.
abbrev pub IsCopyable : AdaptorKanban → Type 0
IsCopyable a = (k : StatusKanban) × (f : Fields) × (a.kanban ≡ some k) × (k.metadata ≡ some f)

-- The document of a kanban under the name that the kanban store gives its stream.
abbrev pub metadata_item : Option Fields → Item
metadata_item none = nil_item
metadata_item (some f) = object_item (unpack_fields f)

abbrev pub add_copy : {S : Type 0} → (Dict Item → S → S) → String → Option StatusKanban → S → S
add_copy add key none s = s
add_copy add key (some k) s = add (document k key (metadata_item k.metadata)) s

abbrev pub add_copies : {S : Type 0} → (Dict Item → S → S) → String → List AdaptorKanban → S → S
add_copies add key [] s = s
add_copies add key (k ∷ ks) s = add_copies add key ks (add_copy add key k.kanban s)

module _ {S : Type 0} (insert_one : Dict Item → S → Option S) (add : Dict Item → S → S) where
  abbrev pub Inserts : Type 0
  Inserts = (d : Dict Item) (s : S) → insert_one d s ≡ some (add d s)

  write_kanban_mongo-adds :
      (k : AdaptorKanban) (key : String) (s : S)
      → Inserts
      → IsCopyable k
      → write_kanban_mongo insert_one k.kanban key s ≡ goes_on (add_copy add key k.kanban s)
  unfolding write_kanban_mongo unpack_struct inserted
  write_kanban_mongo-adds a key s ins (k, f, there, meta) =
      let d = document k key (object_item (unpack_fields f)) in
      let added = ins d s in rw there (rw (meta, added) refl)

  -- Where the database takes every document: the kanbans of a stream, as long as each has
  -- metadata, become documents in their order, under the name that the kanban store reads them from;
  -- at the first kanban without metadata the process panics, and copies nothing behind it.
  pub watch_microservice-copies :
      (ms_name : String) (number : ℤ) (t : StatusType) (ks : List AdaptorKanban) (s : S)
      → Inserts
      → All IsCopyable ks
      → (watch_microservice insert_one ms_name number t ks s
          ≡ goes_on (add_copies add (get_stream_key_by_status_type ms_name number t) ks s))
        × ((id : String) (k : StatusKanban) (rest : List AdaptorKanban)
            → k.metadata ≡ none
            → watch_microservice insert_one ms_name number t
                (ks ++ (record { id = id; kanban = some k } ∷ rest))
                s
              ≡ panics)
  unfolding watch_microservice then_copy write_kanban_mongo unpack_struct
  watch_microservice-copies ms_name number t [] s ins h = (refl, λ id k rest e. rw e refl)
  watch_microservice-copies ms_name number t (a ∷ ks) s ins (here, h) =
      let key = get_stream_key_by_status_type ms_name number t in
      let step =
        ap (λ x. write_kanban_mongo insert_one a.kanban x s) (same_key ms_name number t)
        ∙ write_kanban_mongo-adds a key s ins here in
      let (ih, stops) =
        watch_microservice-copies ms_name number t ks (add_copy add key a.kanban s) ins h in
      (
        ap
              (λ o.
                then_copy insert_one o (λ s'. watch_microservice insert_one ms_name number t ks s'))
              step
            ∙ ih,
        λ id k rest e.
            ap
              (λ o. then_copy insert_one o (λ s'.
                watch_microservice insert_one ms_name number t
                  (ks ++ (record { id = id; kanban = some k } ∷ rest)) s'))
              step
            ∙ stops id k rest e,
      )

-- The value that an item was made from.
abbrev mutual
  pub pack_value : Item → Value
  pack_value null_item = null_value
  pack_value (number_item n) = number_value n
  pack_value (string_item s) = string_value s
  pack_value (bool_item b) = bool_value b
  pack_value (object_item f) = struct_value (pack_fields f)
  pack_value (array_item l) = list_value (pack_values l)
  pack_value nil_item = no_kind
  pack_value (integer_item z) = no_kind

  pub pack_fields : Entries → Fields
  pack_fields no_entries = end
  pack_fields (entry k x f) = field k (pack_value x) (pack_fields f)

  pub pack_values : Items → Values
  pack_values no_items = nil
  pack_values (item x l) = cons (pack_value x) (pack_values l)

mutual
  unfolding unpack_value

  value_returns : (v : Value) → pack_value (unpack_value v) ≡ v
  value_returns null_value = refl
  value_returns (number_value n) = refl
  value_returns (string_value s) = refl
  value_returns (bool_value b) = refl
  value_returns (struct_value f) = ap struct_value (fields_return f)
  value_returns (list_value l) = ap list_value (value_returnss l)
  value_returns no_kind = refl

  fields_return : (f : Fields) → pack_fields (unpack_fields f) ≡ f
  fields_return end = refl
  fields_return (field k x f) =
      ap (λ y. field k y (pack_fields (unpack_fields f))) (value_returns x)
      ∙ ap (field k x) (fields_return f)

  value_returnss : (l : Values) → pack_values (unpack_values l) ≡ l
  value_returnss nil = refl
  value_returnss (cons x l) =
      ap (λ y. cons y (pack_values (unpack_values l))) (value_returns x)
      ∙ ap (cons x) (value_returnss l)

-- Nothing of the metadata is lost in the database: the fields can be read back from the item that
-- they become, however deep they are nested, and only missing metadata becomes no item.
pub unpack_struct-pack_value :
    (m : Option Fields) → map_option pack_value (unpack_struct m) ≡ map_option struct_value m
unfolding unpack_struct
unpack_struct-pack_value none = refl
unpack_struct-pack_value (some f) = ap (λ g. some (struct_value g)) (fields_return f)
