-- ===== src/Services/Deletion.antt =====
-- What a deletion of internal/services/project_service.go leaves of the project.
use aion_core.Prelude.{
  String, ◌≡◌, refl, ap, Bool, true, false, Option, none, some, [], ◌∷◌, Dict, lookup, erase,
  lookup-erase, map_option, str_eq, if◌then◌else◌, Result-cases, arith, Bool-cases, inl, inr,
}
use aion_core.Config.Types.{Microservice, Project, AionSetting}
use aion_core.Config.Project.{
  initialize_microservice, initialize_microservices, set_initialize_value, load_config_from_grpc,
}
use aion_core.Config.Defaults.{load_config_from_grpc-ok}
use aion_core.Services.{ProjectServer, ok_response, answer, delete_services, delete_from, delete}

abbrev pub holds {ℓ} : {V : Type ℓ} → String → Dict V → Bool
holds key [] = false
holds key ((name, v) ∷ m) = let rest = holds key m in if str_eq name key then true else rest

lookup-delete_services :
    (gone services : Dict (Option Microservice)) (key : String)
    → lookup key (delete_services gone services)
      ≡ (if holds key gone then none else lookup key services)
unfolding delete_services
lookup-delete_services [] services key = refl
lookup-delete_services ((name, v) ∷ gone) services key =
    ground
      (arith, lookup-delete_services gone (erase name services) key, lookup-erase name key services)

lookup-initialize_microservices :
    (m : Dict (Option Microservice)) (key : String)
    → (initialize_microservices m).1 ≡ none
    → lookup key (initialize_microservices m).0
      ≡ map_option (map_option initialize_microservice) (lookup key m)
unfolding initialize_microservices lookup
lookup-initialize_microservices [] key h = refl
lookup-initialize_microservices ((name, none) ∷ m) key h = cc
lookup-initialize_microservices ((name, some ms) ∷ m) key h =
    ground (arith, lookup-initialize_microservices m key h)

remaining :
    (request current : Project) (setting : AionSetting) (key : String)
    → let rest : Project = record current {
      microservices = delete_services request.microservices current.microservices;
    } in
      (set_initialize_value rest).1 ≡ none
      → setting ≡ record { aion = (set_initialize_value rest).0 }
      → lookup key setting.aion.microservices ≡ (
          if holds key request.microservices
          then none
          else map_option (map_option initialize_microservice) (lookup key current.microservices))
unfolding set_initialize_value
remaining request current setting key clean same =
    let left = delete_services request.microservices current.microservices in
    let a = lookup-initialize_microservices left key clean in
    let b = lookup-delete_services request.microservices current.microservices key in
    let c = ap (λ (s : AionSetting). lookup key s.aion.microservices) same in
    elim (Bool-cases (holds key request.microservices)) [
      | inl e ↦ ground (arith, a, b, c, e)
      | inr e ↦ ground (arith, a, b, c, e)
    ]

-- A deletion that is answered with OK sends a setting in which the named services are missing, and
-- every other service of the project is there with its defaults set, or missing if it was missing.
pub delete_lem :
    (request current : Project) (p p' : ProjectServer)
    → p.prj ≡ some current
    → delete request p ≡ some (p', ok_response)
    → (setting : AionSetting) × (p'.sent ≡ setting ∷ p.sent)
      × ((key : String)
          → lookup key setting.aion.microservices ≡ (
              if holds key request.microservices
              then none
              else map_option
                  (map_option initialize_microservice)
                  (lookup key current.microservices)))
unfolding delete delete_from answer
delete_lem request current p p' e h =
    let rest : Project = record current {
      microservices = delete_services request.microservices current.microservices;
    } in
    elim (Result-cases (load_config_from_grpc rest).1) [
      | inl (x, q) ↦ ground (arith, e, q, h)
      | inr (setting, q) ↦
          let sent : p'.sent ≡ setting ∷ p.sent = ground (arith, e, q, h) in
          let (clean, same) = load_config_from_grpc-ok rest setting q in
          (setting, sent, λ key. remaining request current setting key clean same)
    ]
