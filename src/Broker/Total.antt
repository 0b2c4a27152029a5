-- ===== src/Broker/Total.antt =====
-- The controller's loop over settings that were loaded from a project: nothing panics, and single
-- services stay single.
use aion_core.Prelude.{
  String, ◌≡◌, refl, Bool, true, false, some, List, [], ◌∷◌, All, lookup, AllValues, AllValues-map,
  arith, Bool-cases, inl, inr, ok,
}
use aion_core.Prelude.Int.{ℤ}
use aion_core.Config.Types.{Project}
use aion_core.Config.Defaults.{load_config_from_grpc-IsPresent}
use aion_core.Config.Project.{load_config_from_grpc}
use aion_core.Microservice.Scale.Laws.{IsSingle}
use aion_core.Broker.State.{Parts, Controller, no_such_microservice}
use aion_core.Broker.Requests.{start_microservice_by_num}
use aion_core.Broker.Loop.{Event, new_setting, start_request, Loop, step, run, initial}
use aion_core.Microservice.Scale.Survival.{Survival}
use aion_core.Broker.Single.{IsSound, start_by_num-IsSound}
use aion_core.Broker.Settings.{SafeServices, on_setting_lem}

module _ {S C E : Type 0} (parts : Parts S C E) (Safe : C → Type 0) where
  -- A setting reaches the loop only after it was loaded from a project; its replicas are safe.
  abbrev pub FromProject : Event → Type 0
  FromProject (new_setting as_) =
      (p : Project) × ((load_config_from_grpc p).1 ≡ ok as_)
      × SafeServices parts Safe as_.aion.microservices
  FromProject (start_request name number) = Unit

module _ {S C E : Type 0} (parts : Parts S C E) (Safe : C → Type 0)
    (survival : Survival parts.ops parts.alive Safe) where
  -- Before the first setting there is no service, so no start reaches the missing context.
  record IsGood (l : Loop S C) : Type 0 where
    sound : IsSound parts Safe survival l.msc
    context : l.has_context ≡ false → l.msc.microservice_list ≡ []

  start_by_num-empty :
      (name : String) (number : ℤ) (msc : Controller S C)
      → msc.microservice_list ≡ []
      → start_microservice_by_num parts name number msc ≡ (msc, some no_such_microservice)
  unfolding start_microservice_by_num lookup
  start_by_num-empty name number msc e = ground (arith, e)

  step-IsGood :
      (e : Event) (l : Loop S C)
      → FromProject parts Safe e
      → IsGood l
      → (l' : Loop S C) × (step parts e l ≡ some l') × IsGood l'
  unfolding step
  step-IsGood (new_setting as_) l (p, h, safe) g =
      let (msc', e, v) =
        on_setting_lem parts Safe survival as_ l.msc (load_config_from_grpc-IsPresent p as_ h) safe
          g.sound in
      let alive = v.1 in
      (
        record { msc = msc'; has_context = true; forwarded = as_ ∷ l.forwarded },
        ground (arith, e, alive),
        record { sound = v; context = λ (f : true ≡ false). cc },
      )
  step-IsGood (start_request name number) l h g =
      let (msc', answer) = start_microservice_by_num parts name number l.msc in
      let v = start_by_num-IsSound parts Safe survival name number l.msc g.sound in
      let alive = v.1 in
      let was = g.sound.1 in
      elim (Bool-cases l.has_context) [
        | inl e ↦ (
          record l { msc = msc' },
          ground (arith, e, alive),
          record { sound = v; context = λ f. cc (e, f) },
        )
        | inr e ↦
            let refused = start_by_num-empty name number l.msc (g.context e) in
            (
              record l { msc = l.msc },
              ground (arith, refused, was),
              record { sound = g.sound; context = g.context },
            )
      ]

  run-IsGood :
      (es : List Event) (l : Loop S C)
      → All (FromProject parts Safe) es
      → IsGood l
      → (l' : Loop S C) × (run parts es l ≡ some l') × IsGood l'
  unfolding run
  run-IsGood [] l h g = (l, refl, g)
  run-IsGood (e ∷ es) l (h, hs) g =
      let (l', e', g') = step-IsGood e l h g in
      let (l'', e'', g'') = run-IsGood es l' hs g' in (l'', rw (e', run) e'', g'')

  -- Where the starts of safe containers and all stops do not panic: from the controller's first
  -- state, any sequence of loaded settings whose replicas are safe and of start requests, for any
  -- names and numbers, runs to its end without a panic, of the loop or of a process, and leaves
  -- every service that does not allow several starts with no replica that is up twice.
  pub run_total :
      (aion_home : String) (is_worker_mode : Bool) (cluster : S) (es : List Event)
      → parts.alive cluster ≡ true
      → All (FromProject parts Safe) es
      → (l : Loop S C) × (run parts es (initial aion_home is_worker_mode cluster) ≡ some l)
        × (parts.alive l.msc.cluster ≡ true)
        × AllValues IsSingle l.msc.microservice_list
  unfolding initial
  run_total aion_home is_worker_mode cluster es a h =
      let (l, e, g) =
        run-IsGood es (initial aion_home is_worker_mode cluster) h
          (record { sound = (tt, a); context = λ f. refl }) in
      (l, e, g.sound.1, AllValues-map (λ sc v. v.0) l.msc.microservice_list g.sound.0)
