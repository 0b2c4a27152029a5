-- ===== src/Tests/Project.antt =====
-- A project of two services, and what the theorems say of it.
use aion_core.Prelude.{
  ◌≡◌, ◌≢◌, refl, String, true, false, none, some, [], ◌∷◌, ok, lookup, erase, map_option,
  if◌then◌else◌,
}
use aion_core.Prelude.Int.{pos}
use aion_core.Config.Types.{NextServiceSetting, Microservice, Device, Project, AionSetting}
use aion_core.Config.Project.{
  set_initialize_value, initialize_microservice, initialize_microservices, load_config_from_grpc,
  get_next_service_list,
}
use aion_core.Config.Defaults.{IsReady, load_config_from_grpc-IsReady}
use aion_core.Config.Routes.{IsRoute, get_next_service_list-IsRoute}
use aion_core.Services.{ProjectServer, ok_response, delete_services, delete}
use aion_core.Services.Deletion.{holds, delete_lem}
use aion_core.Kanban.Keys.{
  before, static, get_before_stream_key, get_after_stream_key, get_static_stream_key,
}
use aion_core.Kanban.KeyLaws.{stream_kinds_differ, get_stream_key_by_status_type_inj}

abbrev pub bare : Microservice
bare = record {
  command = [];
  next_service = none;
  scale = pos 0;
  env = none;
  position = "";
  always = false;
  multiple = false;
  startup = true;
  interval = pos 0;
  ports = [];
  dir_path = "";
  service_account = "";
  network = "";
  tag = "";
  volume_mount_path_list = [];
  privileged = false;
  without_kanban = false;
  target_node = "";
  resources = none;
}

abbrev to_lamp : NextServiceSetting
to_lamp = record { next_service_name = "lamp"; number_pattern = ""; next_device = "" }

abbrev pub camera : Microservice
camera = record bare {
  scale = pos 2;
  next_service = some (("default", record { next_service_setting = to_lamp ∷ [] }) ∷ []);
}

abbrev desk : Device
desk = record { addr = "10.0.0.2"; ssh_port = pos 0; username = ""; password = "x"; aion_home = "" }

abbrev pub office : Project
office = record {
  microservices = ("camera", some camera) ∷ ("lamp", some bare) ∷ [];
  devices = ("desk", desk) ∷ [];
  device_name = "office";
  debug = "";
}

abbrev pub office_setting : AionSetting
office_setting = record { aion = (set_initialize_value office).0 }

pub office-loads : (load_config_from_grpc office).1 ≡ ok office_setting
unfolding load_config_from_grpc set_initialize_value initialize_microservices
office-loads = refl

load_config_from_grpc-IsReady_example : IsReady (lookup "lamp" office_setting.aion.microservices)
load_config_from_grpc-IsReady_example =
    load_config_from_grpc-IsReady office office_setting "lamp" office-loads

get_next_service_list-IsRoute_example :
    IsRoute "left"
      (lookup "camera" office_setting.aion.microservices)
      (get_next_service_list office_setting "camera" "left")
get_next_service_list-IsRoute_example =
    get_next_service_list-IsRoute office office_setting "camera" "left" office-loads

stream_kinds_differ_example :
    (get_before_stream_key "camera" (pos 1) ≢ get_after_stream_key "camera" (pos 1))
    × (get_before_stream_key "camera" (pos 1) ≢ get_static_stream_key "camera")
    × (get_after_stream_key "camera" (pos 1) ≢ get_static_stream_key "camera")
stream_kinds_differ_example = stream_kinds_differ "camera" "camera" "camera" (pos 1) (pos 1)

abbrev sensor : String
sensor = "camera"

before≢static : before ≢ static
before≢static = λ e. cc

get_stream_key_by_status_type_inj_example : (sensor ≡ sensor) × (pos 7 ≡ pos 7) × (before ≡ before)
get_stream_key_by_status_type_inj_example =
    get_stream_key_by_status_type_inj sensor sensor (pos 7) (pos 7) before before before≢static
      before≢static refl

abbrev request : Project
request = record {
  microservices = ("camera", none) ∷ [];
  devices = [];
  device_name = "";
  debug = "";
}

abbrev only_lamp : Project
only_lamp = record office { microservices = ("lamp", some bare) ∷ [] }

abbrev serving : ProjectServer
serving = record { prj = some office; sent = [] }

abbrev served : ProjectServer
served = record {
  prj = some request;
  sent = record { aion = (set_initialize_value only_lamp).0 } ∷ [];
}

camera-deletes : delete request serving ≡ some (served, ok_response)
unfolding delete load_config_from_grpc delete_services erase set_initialize_value
    initialize_microservices
camera-deletes = refl

delete_lem_example :
    (setting : AionSetting) × (served.sent ≡ setting ∷ serving.sent)
    × ((key : String)
        → lookup key setting.aion.microservices ≡ (
            if holds key request.microservices
            then none
            else map_option (map_option initialize_microservice) (lookup key office.microservices)))
delete_lem_example = delete_lem request office serving served refl camera-deletes
