-- ===== src/Client/Closing.antt =====
-- What a service of pkg/go-client/msclient/ sends, and what its end does in the service broker.
use aion_core.Prelude.{
  String, Bool, true, if◌then◌else◌, Option, some, List, [], ◌∷◌, map, Dict, lookup, map_values,
  Result, ok, ◌≡◌, sym, subst, arith, Result-cases, inl, inr,
}
use aion_core.Prelude.Int.{ℤ, pos, to_int32, IsInt32, to_int32-IsInt32, to_int32-same}
use aion_core.Config.Types.{Microservice, AionSetting}
use aion_core.Config.Project.{get_microservice_list}
use aion_core.Kanban.Types.{Fields, StatusKanban}
use aion_core.Broker.Watcher.{
  Json, json_string, stop, follow, requested, terminate, terminate_service_parser, on_kanban,
}
use aion_core.Client.{
  OutputOption, default_output, with_options, new_output_data, set_result, set_data_path,
  set_connection_key, set_process_number, set_file_list, set_device_name, set_metadata,
  MicroserviceClient, Calls, terminate_metadata, terminate_kanban, output_kanban,
  send_terminate_kanban, close,
}

-- The options of the library.
pub data Choice : Type 0 where
  result : Bool → Choice
  data_path connection_key device_name : String → Choice
  process_number : ℤ → Choice
  file_list : List String → Choice
  metadata : Dict Json → Choice

module _ (to_struct : Dict Json → Result String Fields) where
  abbrev pub option_of : Choice → OutputOption
  option_of (result r) = set_result r
  option_of (data_path p) = set_data_path p
  option_of (connection_key k) = set_connection_key k
  option_of (device_name n) = set_device_name n
  option_of (process_number n) = set_process_number n
  option_of (file_list l) = set_file_list l
  option_of (metadata m) = set_metadata to_struct m

  -- The number that was chosen last, as a 32-bit integer.
  abbrev pub last_number : List Choice → ℤ → ℤ
  last_number [] z = z
  last_number (process_number n ∷ l) z = last_number l (to_int32 n)
  last_number (c ∷ l) z = last_number l z

  last_number-IsInt32 : (l : List Choice) (z : ℤ) → IsInt32 z → IsInt32 (last_number l z)
  last_number-IsInt32 [] z h = h
  last_number-IsInt32 (process_number n ∷ l) z h =
      last_number-IsInt32 l (to_int32 n) (to_int32-IsInt32 n)
  last_number-IsInt32 (result r ∷ l) z h = last_number-IsInt32 l z h
  last_number-IsInt32 (data_path p ∷ l) z h = last_number-IsInt32 l z h
  last_number-IsInt32 (connection_key k ∷ l) z h = last_number-IsInt32 l z h
  last_number-IsInt32 (device_name n ∷ l) z h = last_number-IsInt32 l z h
  last_number-IsInt32 (file_list f ∷ l) z h = last_number-IsInt32 l z h
  last_number-IsInt32 (metadata m ∷ l) z h = last_number-IsInt32 l z h

  with_options-last_number :
      (l : List Choice) (d k : StatusKanban)
      → with_options (map option_of l) d ≡ ok k
      → k.process_number ≡ last_number l d.process_number
  unfolding with_options set_result set_data_path set_connection_key set_device_name
      set_process_number set_file_list set_metadata
  with_options-last_number [] d k h = ground (arith, h)
  with_options-last_number (result r ∷ l) d k h = with_options-last_number l _ k h
  with_options-last_number (data_path p ∷ l) d k h = with_options-last_number l _ k h
  with_options-last_number (connection_key x ∷ l) d k h = with_options-last_number l _ k h
  with_options-last_number (device_name n ∷ l) d k h = with_options-last_number l _ k h
  with_options-last_number (process_number n ∷ l) d k h = with_options-last_number l _ k h
  with_options-last_number (file_list f ∷ l) d k h = with_options-last_number l _ k h
  with_options-last_number (metadata m ∷ l) d k h = elim (Result-cases (to_struct m)) [
    | inl (e, f) ↦ ground (arith, f, h)
    | inr (s, f) ↦
        let d' : StatusKanban = record d { metadata = some s } in
        let rest : with_options (map option_of l) d' ≡ ok k = ground (arith, f, h) in
        with_options-last_number l d' k rest
  ]

  -- However the options of the library are combined: the process number of the kanban that they make
  -- is the one that was chosen last, reduced to 32 bits with a sign, or 1; it is within the range of
  -- an int32, and a chosen number of that range is not changed.
  pub new_output_data-IsInt32 :
      (l : List Choice) (k : StatusKanban)
      → new_output_data (map option_of l) ≡ ok k
      → (k.process_number ≡ last_number l (pos 1))
        × IsInt32 k.process_number
        × ((z : ℤ) → IsInt32 z → to_int32 z ≡ z)
  unfolding new_output_data default_output
  new_output_data-IsInt32 l k h =
      let e = with_options-last_number l default_output k h in
      (e, subst IsInt32 (sym e) (last_number-IsInt32 l (pos 1) (omega arith)), to_int32-same)

-- A client whose connections are open, whose metadata can be made, and reads back as it was in the
-- service broker: `Close` sends the terminate kanban as a request of the service and then closes both
-- connections. For a service that the setting knows and that does not always run, this kanban ends
-- the watcher that gets it; for one that always runs it is routed as any other.
pub close-stop :
    {T : Type 0} (calls : Calls T) (to_struct : Dict String → Result String Fields)
    (to_json : Option Fields → Option (Dict Json)) (k : MicroserviceClient) (s : Fields)
    (setting : AionSetting) (ms : Microservice) (ms_name : String) (t : T)
    → (k.has_send_client ≡ true) × (k.has_recv_conn ≡ true) × (k.has_send_conn ≡ true)
    → to_struct (terminate_metadata k) ≡ ok s
    → to_json (some s) ≡ some (map_values json_string (terminate_metadata k))
    → lookup k.service_name (get_microservice_list setting) ≡ some (some ms)
    → ((close calls to_struct k t).0
        ≡ (calls.close_send
            (calls.close_recv
              (calls.send_kanban
                (record {
                  microservice_name = k.service_name;
                  message = some (terminate_kanban k s);
                })
                t).0).0).0)
      × (on_kanban to_json setting ms_name (terminate_kanban k s)
          ≡ (if ms.always then follow to_json setting ms_name (terminate_kanban k s) else stop))
unfolding close send_terminate_kanban output_kanban on_kanban requested terminate
    terminate_service_parser terminate_kanban lookup map_values
close-stop calls to_struct to_json k s setting ms ms_name t (a, b, c) made reads known =
    (ground (arith, a, b, c, made), ground (arith, reads, known))
