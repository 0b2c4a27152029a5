-- ===== src/Broker/Settings.antt =====
-- How the controller takes up a setting (cmd/service-broker/app/controller.go) without a panic.
use aion_core.Prelude.{
  ℕ, ◌+◌, String, ◌≡◌, ◌≢◌, refl, ap, sym, ◌∙◌, subst, false, Option, none, some, [], ◌∷◌, Dict,
  insert, insert-AllValues, AllValues, arith, Option-cases, inl, inr, if◌then◌else◌,
}
use aion_core.Prelude.Int.{ℤ, pos_part}
use aion_core.Config.Types.{Microservice, AionSetting}
use aion_core.Config.Defaults.{IsPresent}
use aion_core.Microservice.Scale.{ScaleContainer, put_env}
use aion_core.Microservice.Scale.Laws.{IsSingle, up_state}
use aion_core.Microservice.Fresh.{is_between, new_scale_container_lem, new_scale_container-origin}
use aion_core.Broker.State.{Parts, Controller, on_worker, set_service_status}
use aion_core.Broker.Setup.{
  set_aion_env, set_microservice, set_one, set_loop, set_microservice_list,
}
use aion_core.Broker.Requests.{start_startup_microservice}
use aion_core.Broker.Loop.{replace_setting, on_setting}
use aion_core.Microservice.Scale.Survival.{Survival, AllSafe}
use aion_core.Broker.Single.{
  IsFine, IsSound, stop_all-IsSound, startup_loop-IsSound, status-IsSound,
}

-- The same service, up to its environment.
abbrev IsWithEnv : Microservice → Microservice → Type 0
IsWithEnv ms ms' = (env : Option (Dict String)) × (ms' ≡ record ms { env = env })

put_env_lem :
    (key value : String) (ms : Microservice)
    → ms.env ≢ none
    → (ms' : Microservice) × (put_env key value ms ≡ some ms') × (ms'.env ≢ none) × IsWithEnv ms ms'
unfolding put_env
put_env_lem key value ms h = elim (Option-cases ms.env) [
  | inl e ↦ absurd (h e)
  | inr (env, e) ↦ (
    record ms { env = some (insert key value env) },
    ground (arith, e),
    λ p. cc,
    (some (insert key value env), refl),
  )
]

module _ {S C E : Type 0} (parts : Parts S C E) (Safe : C → Type 0) where
  -- Each replica of a service, whatever its environment, is a safe container.
  abbrev SafeService : String → Microservice → Type 0
  SafeService name ms =
      (env : Option (Dict String)) (n : ℕ)
      → Safe (parts.new_container name (record ms { env = env }) n)

  abbrev pub SafeServices : Dict (Option Microservice) → Type 0
  SafeServices [] = Unit
  SafeServices ((name, none) ∷ m) = SafeServices m
  SafeServices ((name, some ms) ∷ m) = SafeService name ms × SafeServices m

module _ {S C E : Type 0} (parts : Parts S C E) (Safe : C → Type 0)
    (survival : Survival parts.ops parts.alive Safe) where
  set_aion_env_lem :
      (msc : Controller S C) (ms : Microservice)
      → ms.env ≢ none
      → (ms' : Microservice) × (set_aion_env parts msc ms ≡ some ms')
        × (ms'.env ≢ none)
        × IsWithEnv ms ms'
  unfolding set_aion_env
  set_aion_env_lem msc ms h =
      let (a, ea, ha, (x, wa)) = put_env_lem "AION_HOME" msc.aion_home ms h in
      let (b, eb, hb, (y, wb)) = put_env_lem "DEVICE_NAME" msc.aion_setting.device_name a ha in
      let (c, ec, hc, (z, wc)) = put_env_lem "DEBUG" msc.aion_setting.debug b hb in
      let same : c ≡ record ms { env = z } =
        wc
        ∙ ap (λ (t : Microservice). record t { env = z })
            (wb ∙ ap (λ (t : Microservice). record t { env = y }) wa) in
      (c, ground (arith, ea, eb, ec), hc, (z, same))

  -- Fresh replicas are all down.
  fresh-IsSingle :
      (sc : ScaleContainer C) (k : ℕ)
      → ((j : ℤ) → up_state sc j ≡ (if is_between 1 (1 + k) j then some 0 else none))
      → IsSingle sc
  fresh-IsSingle sc k h = record { at_most_once = λ m j n e. ground (arith, h j) }

  set_one_lem :
      (name : String) (ms : Microservice) (msc : Controller S C)
      → ms.env ≢ none
      → SafeService parts Safe name ms
      → IsSound parts Safe survival msc
      → (last : Microservice) × (msc' : Controller S C) × (set_one parts name ms msc
          ≡ some (last, msc'))
        × (last.env ≢ none)
        × IsSound parts Safe survival msc'
  unfolding set_one set_microservice
  set_one_lem name ms msc h safe v =
      let (a, ea, ha, (z, wa)) = set_aion_env_lem msc ms h in
      let (last, sc, es, keeps, size, kind, counters) =
        new_scale_container_lem (parts.new_container name) name a ha in
      let safe_a = subst (SafeService parts Safe name) (sym wa) (λ env. safe env) in
      let origin = new_scale_container-origin (parts.new_container name) name a last sc ha es in
      let all_safe : AllSafe Safe sc = λ j status e.
        let (env, k, same) = origin j status e in subst Safe (sym same) (safe_a env k) in
      let msc' : Controller S C = record msc {
        microservice_list = insert name sc msc.microservice_list;
      } in
      (
        last,
        on_worker (set_service_status false name) msc',
        ground (arith, ea, es),
        keeps,
        status-IsSound parts Safe survival false name msc' (
          insert-AllValues (IsFine parts Safe survival) name sc msc.microservice_list
              (fresh-IsSingle sc (pos_part a.scale) counters, all_safe) v.0,
          v.1,
        ),
      )

  set_loop_lem :
      (m : Dict (Option Microservice)) (msc : Controller S C)
      → AllValues IsPresent m
      → SafeServices parts Safe m
      → IsSound parts Safe survival msc
      → (rest : Dict (Option Microservice)) × (msc' : Controller S C) × (set_loop parts m msc
          ≡ some (rest, msc'))
        × AllValues IsPresent rest
        × IsSound parts Safe survival msc'
  unfolding set_loop
  set_loop_lem [] msc p safe v = ([], msc, refl, tt, v)
  set_loop_lem ((name, none) ∷ m) msc p safe v = absurd p.0
  set_loop_lem ((name, some ms) ∷ m) msc p (safe, rest_safe) v =
      let (last, msc', e, keeps, v') = set_one_lem name ms msc p.0 safe v in
      let (rest, msc'', e', p', v'') = set_loop_lem m msc' p.1 rest_safe v' in
      ((name, some last) ∷ rest, msc'', ground (arith, e, e'), (keeps, p'), v'')

  set_microservice_list_lem :
      (msc : Controller S C)
      → AllValues IsPresent msc.aion_setting.microservices
      → SafeServices parts Safe msc.aion_setting.microservices
      → IsSound parts Safe survival msc
      → (msc' : Controller S C) × (set_microservice_list parts msc ≡ some msc')
        × AllValues IsPresent msc'.aion_setting.microservices
        × IsSound parts Safe survival msc'
  unfolding set_microservice_list
  set_microservice_list_lem msc p safe v =
      let (rest, msc', e, p', v') = set_loop_lem msc.aion_setting.microservices msc p safe v in
      (
        record msc' { aion_setting = record msc'.aion_setting { microservices = rest } },
        ground (arith, e),
        p',
        v',
      )

  -- A loaded setting whose replicas are safe is taken up without a panic.
  pub on_setting_lem :
      (as_ : AionSetting) (msc : Controller S C)
      → AllValues IsPresent as_.aion.microservices
      → SafeServices parts Safe as_.aion.microservices
      → IsSound parts Safe survival msc
      → (msc' : Controller S C) × (on_setting parts as_ msc ≡ some msc')
        × IsSound parts Safe survival msc'
  unfolding on_setting start_startup_microservice
  on_setting_lem as_ msc p safe v =
      let old = replace_setting parts as_ msc in
      let (msc', e, p', v') =
        set_microservice_list_lem old p safe (stop_all-IsSound parts Safe survival _ v) in
      let (r, e', v'') =
        startup_loop-IsSound parts Safe survival msc'.aion_setting.microservices (msc', none) p'
          v' in
      (r.0, ground (arith, e, e'), v'')
