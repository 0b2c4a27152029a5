-- ===== src/Services.antt =====
-- internal/services/project_service.go: the gRPC service that takes projects from a user.
pub mod Workers
pub mod WorkerLaws
pub mod Deletion
use aion_core.Prelude.{
  String, Bool, Option, none, some, List, [], ◌∷◌, Dict, lookup, erase, Result, ok, err,
  if◌then◌else◌,
}
use aion_core.Config.Types.{Microservice, Project, AionSetting}
use aion_core.Config.Project.{load_config_from_grpc}

-- `sent` is what went to AionCh, newest first.
pub record ProjectServer : Type 0 where
  pub prj : Option Project
  pub sent : List AionSetting

pub data ResponseCode : Type 0 where
  unknown_response ok_response failed_response : ResponseCode

abbrev pub new_project_server : ProjectServer
new_project_server = record { prj = none; sent = [] }

unfoldable pub answer :
    {E : Type 0}
    → Project
    → Project
    → Result E AionSetting
    → ProjectServer
    → ProjectServer × ResponseCode
answer kept next (err e) p = (record p { prj = some kept }, failed_response)
answer kept next (ok setting) p = (record { prj = some next; sent = setting ∷ p.sent }, ok_response)

-- The received message becomes the project before it is checked, and stays it if that fails.
unfoldable pub apply : Project → ProjectServer → ProjectServer × ResponseCode
unfolding answer
apply received p = let (loaded, r) = load_config_from_grpc received in answer loaded loaded r p

-- for i := range prj.Microservices { delete(p.prj.Microservices, i) }
unfoldable pub delete_services :
    Dict (Option Microservice) → Dict (Option Microservice) → Dict (Option Microservice)
delete_services [] services = services
delete_services ((i, ms) ∷ m) services = delete_services m (erase i services)

unfoldable pub delete_from : Project → ProjectServer → Project → ProjectServer × ResponseCode
unfolding answer delete_services
delete_from prj p current =
    let rest : Project = record current {
      microservices = delete_services prj.microservices current.microservices;
    } in
    let (loaded, r) = load_config_from_grpc rest in answer loaded prj r p

-- Without a project there is a nil pointer, and the call panics: `none`.
unfoldable pub delete : Project → ProjectServer → Option (ProjectServer × ResponseCode)
unfolding delete_from
delete prj p = elim p.prj [ none ↦ none | some current ↦ some (delete_from prj p current) ]

-- The answer of `Status`: `all` is the hash that Redis holds, `none` an error of the query. The
-- code of the answer is Failed in both cases.
unfoldable pub status : Option (Dict String) → Option (Dict String) × ResponseCode
status none = (none, failed_response)
status (some all) = (some all, failed_response)
