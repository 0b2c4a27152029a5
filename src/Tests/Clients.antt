-- ===== src/Tests/Clients.antt =====
-- The client library at concrete inputs.
use aion_core.Prelude.{
  ℕ, String, true, List, [], ◌∷◌, map, Dict, lookup, map_values, Option, none, some, Result, ok,
  ◌≡◌, suc, refl, if◌then◌else◌,
}
use aion_core.Prelude.Int.{ℤ, pos, to_int32, IsInt32}
use aion_core.Config.Project.{
  set_initialize_value, initialize_microservice, initialize_microservices, get_microservice_list,
}
use aion_core.Kanban.Types.{Fields, end, field, string_value, StatusKanban}
use aion_core.Broker.Watcher.{Json, json_string, on_kanban, follow, stop}
use aion_core.KanbanServer.{Request}
use aion_core.Client.{
  set_process_number, set_data_path, MicroserviceClient, Calls, new_output_data, terminate_metadata,
  terminate_kanban, close,
}
use aion_core.Client.Closing.{
  Choice, process_number, data_path, option_of, last_number, new_output_data-IsInt32, close-stop,
}
use aion_core.Tests.Project.{bare, office_setting}

abbrev no_struct : Dict Json → Result String Fields
no_struct m = ok end

abbrev numbered : List Choice
numbered = process_number (pos 4294967298) ∷ data_path "/a" ∷ []

abbrev second : StatusKanban
second = record {
  start_at = "";
  finish_at = "";
  next_device_name = "";
  connection_key = "default";
  process_number = pos 2;
  prior_success = true;
  data_path = "/a";
  file_list = [];
  metadata = none;
}

makes_second : new_output_data (map (option_of no_struct) numbered) ≡ ok second
unfolding new_output_data set_process_number set_data_path
makes_second = refl

new_output_data-IsInt32_example :
    (second.process_number ≡ last_number no_struct numbered (pos 1))
    × IsInt32 second.process_number
    × ((z : ℤ) → IsInt32 z → to_int32 z ≡ z)
new_output_data-IsInt32_example = new_output_data-IsInt32 no_struct numbered second makes_second

abbrev lamp_client : MicroserviceClient
lamp_client = record {
  env = record { kanban_addr = "a"; ms_number = pos 2; is_docker = true };
  service_name = "lamp";
  has_send_client = true;
  has_recv_conn = true;
  has_send_conn = true;
}

-- What was sent, and how many connections were closed.
abbrev Wire : Type 0
Wire = List Request × ℕ

abbrev wires : Calls Wire
wires = record {
  send_kanban = λ (r : Request) (w : Wire). ((r ∷ w.0, w.1), none);
  send_static_kanban = λ r (w : Wire). (w, none);
  delete_static_kanban = λ r (w : Wire). (w, none);
  close_recv = λ (w : Wire). ((w.0, suc w.1), none);
  close_send = λ (w : Wire). ((w.0, suc w.1), none);
}

abbrev fields_of : Dict String → Fields
fields_of [] = end
fields_of ((k, v) ∷ l) = field k (string_value v) (fields_of l)

abbrev json_of : Fields → Dict Json
json_of end = []
json_of (field k (string_value v) l) = (k, json_string v) ∷ json_of l
json_of (field k v l) = json_of l

abbrev json_back : Option Fields → Option (Dict Json)
json_back none = none
json_back (some f) = some (json_of f)

lamp_known :
    lookup "lamp" (get_microservice_list office_setting)
    ≡ some (some (initialize_microservice bare))
unfolding lookup set_initialize_value initialize_microservices
lamp_known = refl

lamp_metadata :
    json_back (some (fields_of (terminate_metadata lamp_client)))
    ≡ some (map_values json_string (terminate_metadata lamp_client))
unfolding map_values
lamp_metadata = refl

close-stop_example :
    ((close wires (λ m. ok (fields_of m)) lamp_client ([], 0)).0
      ≡ (wires.close_send
          (wires.close_recv
            (wires.send_kanban
              (record {
                microservice_name = "lamp";
                message =
                    some
                      (terminate_kanban lamp_client (fields_of (terminate_metadata lamp_client)));
              })
              ([], 0)).0).0).0)
    × (on_kanban json_back office_setting "lamp"
          (terminate_kanban lamp_client (fields_of (terminate_metadata lamp_client)))
        ≡ (if (initialize_microservice bare).always
            then follow json_back office_setting "lamp"
                (terminate_kanban lamp_client (fields_of (terminate_metadata lamp_client)))
            else stop))
close-stop_example =
    close-stop wires (λ m. ok (fields_of m)) json_back lamp_client
      (fields_of (terminate_metadata lamp_client)) office_setting (initialize_microservice bare)
      "lamp" ([], 0) (refl, refl, refl) refl lamp_metadata lamp_known
