-- ===== src/Broker/Single.antt =====
-- No run of the controller puts a replica of a single service up twice.
use aion_core.Prelude.{
  ℕ, zero, suc, ◌+◌, String, ◌≡◌, refl, Bool, true, false, Option, none, some, List, [], ◌∷◌, map,
  Dict, lookup, insert-AllValues, lookup-AllValues, AllValues, Option-cases, Bool-cases, inl, inr,
}
use aion_core.Prelude.Int.{ℤ, pos}
use aion_core.Config.Types.{Microservice}
use aion_core.Config.Defaults.{IsPresent}
use aion_core.Microservice.Scale.{
  ScaleContainer, ScaleError, get_scale, start_microservice, stop_microservice,
}
use aion_core.Microservice.Scale.Laws.{
  IsSingle, start_microservice-IsSingle, stop_microservice-IsSingle,
}
use aion_core.Microservice.Scale.Survival.{
  Survival, AllSafe, start_microservice-AllSafe, stop_microservice-AllSafe,
  start_microservice-alive, stop_microservice-alive,
}
use aion_core.Broker.State.{Parts, Controller, ControllerError, on_worker, set_service_status}
use aion_core.Broker.Requests.{
  put_service, watch_if_started, start_loop, start_service, start_num_answer,
  start_microservice_by_num, stop_loop, stop_service, stop_each, stop_all_microservice, start_one,
  startup_loop,
}

module _ {S C E : Type 0} (parts : Parts S C E) (Safe : C → Type 0)
    (survival : Survival parts.ops parts.alive Safe) where
  -- A service is single, unless it allows several starts, and its replicas are safe.
  abbrev pub IsFine : ScaleContainer C → Type 0
  IsFine sc = IsSingle sc × AllSafe Safe sc

  -- Every service that the controller holds is fine, and the program is alive.
  abbrev pub IsSound : Controller S C → Type 0
  IsSound msc = AllValues IsFine msc.microservice_list × (parts.alive msc.cluster ≡ true)

  start-IsFine :
      (ms : ScaleContainer C) (i : ℤ) (s : S)
      → IsFine ms
      → IsFine (start_microservice parts.ops ms i s).0
  start-IsFine ms i s (single, safe) = (
    start_microservice-IsSingle parts.ops ms i s single,
    start_microservice-AllSafe parts.ops Safe ms i s safe,
  )

  stop-IsFine :
      (ms : ScaleContainer C) (i : ℤ) (s : S)
      → IsFine ms
      → IsFine (stop_microservice parts.ops ms i s).0
  stop-IsFine ms i s (single, safe) = (
    stop_microservice-IsSingle parts.ops ms i s single,
    stop_microservice-AllSafe parts.ops Safe ms i s safe,
  )

  -- A request that leaves a service fine and the program alive.
  put-IsSound :
      (name : String) (ms : ScaleContainer C) (s : S) (msc : Controller S C)
      → IsFine ms
      → parts.alive s ≡ true
      → IsSound msc
      → IsSound (put_service parts name ms s msc)
  put-IsSound name ms s msc h a v = (insert-AllValues IsFine name ms msc.microservice_list h v.0, a)

  watch-IsSound :
      (name : String) (i : ℤ) (e : Option (ScaleError E)) (msc : Controller S C)
      → IsSound msc
      → IsSound (watch_if_started parts name i e msc)
  unfolding watch_if_started
  watch-IsSound name i none msc v = v
  watch-IsSound name i (some e) msc v = v

  pub status-IsSound :
      (active : Bool) (name : String) (msc : Controller S C)
      → IsSound msc
      → IsSound (on_worker (set_service_status active name) msc)
  unfolding set_service_status
  status-IsSound active name msc v = elim (Bool-cases msc.is_worker_mode) [
    | inl e ↦ rw e v
    | inr e ↦ rw e v
  ]

  start_loop-IsSound :
      (n i : ℕ) (name : String) (ms : ScaleContainer C) (msc : Controller S C)
      → IsFine ms
      → IsSound msc
      → IsSound (start_loop parts n i name ms msc)
  unfolding start_loop
  start_loop-IsSound zero i name ms msc h v = v
  start_loop-IsSound (suc n) i name ms msc h v =
      let (ms', s', e) = start_microservice parts.ops ms (pos i) msc.cluster in
      let h' = start-IsFine ms (pos i) msc.cluster h in
      let a = start_microservice-alive parts.ops parts.alive Safe survival ms (pos i) msc.cluster in
      start_loop-IsSound n (i + 1) name ms' _ h'
        (watch-IsSound name (pos i) e _ (put-IsSound name ms' s' msc h' (a h.1 v.1) v))

  stop_loop-IsSound :
      (n i : ℕ) (name : String) (ms : ScaleContainer C) (msc : Controller S C)
      → IsFine ms
      → IsSound msc
      → IsSound (stop_loop parts n i name ms msc)
  unfolding stop_loop
  stop_loop-IsSound zero i name ms msc h v = v
  stop_loop-IsSound (suc n) i name ms msc h v =
      let (ms', s', e) = stop_microservice parts.ops ms (pos i) msc.cluster in
      let h' = stop-IsFine ms (pos i) msc.cluster h in
      let a = stop_microservice-alive parts.ops parts.alive Safe survival ms (pos i) msc.cluster in
      stop_loop-IsSound n (i + 1) name ms' _ h' (put-IsSound name ms' s' msc h' (a v.1) v)

  start_service-IsSound :
      (name : String) (msc : Controller S C)
      → IsSound msc
      → IsSound (start_service parts name msc).0
  unfolding start_service
  start_service-IsSound name msc v = elim (Option-cases (lookup name msc.microservice_list)) [
    | inl e ↦ rw (e, start_service) v
    | inr (ms, e) ↦
        rw (e, start_service)
          (start_loop-IsSound (get_scale ms) 1 name ms msc
            (lookup-AllValues IsFine name msc.microservice_list v.0 e) v)
  ]

  stop_service-IsSound :
      (name : String) (msc : Controller S C) → IsSound msc → IsSound (stop_service parts name msc).0
  unfolding stop_service
  stop_service-IsSound name msc v = elim (Option-cases (lookup name msc.microservice_list)) [
    | inl e ↦ rw (e, stop_service) v
    | inr (ms, e) ↦
        rw (e, stop_service)
          (status-IsSound false name _ (
            stop_loop-IsSound (get_scale ms) 1 name ms msc
              (lookup-AllValues IsFine name msc.microservice_list v.0 e) v))
  ]

  stop_each-IsSound :
      (names : List String) (msc : Controller S C)
      → IsSound msc
      → IsSound (stop_each parts names msc)
  unfolding stop_each
  stop_each-IsSound [] msc v = v
  stop_each-IsSound (name ∷ names) msc v =
      stop_each-IsSound names _ (stop_service-IsSound name msc v)

  pub stop_all-IsSound :
      (msc : Controller S C) → IsSound msc → IsSound (stop_all_microservice parts msc)
  unfolding stop_all_microservice
  stop_all-IsSound msc v = stop_each-IsSound (map (λ p. p.0) msc.microservice_list) msc v

  start_num_answer-IsSound :
      (name : String) (i : ℤ) (e : Option (ScaleError E)) (msc : Controller S C)
      → IsSound msc
      → IsSound (start_num_answer parts name i e msc).0
  unfolding start_num_answer
  start_num_answer-IsSound name i none msc v = status-IsSound true name msc v
  start_num_answer-IsSound name i (some e) msc v = v

  pub start_by_num-IsSound :
      (name : String) (i : ℤ) (msc : Controller S C)
      → IsSound msc
      → IsSound (start_microservice_by_num parts name i msc).0
  unfolding start_microservice_by_num
  start_by_num-IsSound name i msc v = elim (Option-cases (lookup name msc.microservice_list)) [
    | inl e ↦ rw (e, start_microservice_by_num) v
    | inr (ms, e) ↦
        let h = lookup-AllValues IsFine name msc.microservice_list v.0 e in
        let (ms', s', f) = start_microservice parts.ops ms i msc.cluster in
        let h' = start-IsFine ms i msc.cluster h in
        let a = start_microservice-alive parts.ops parts.alive Safe survival ms i msc.cluster in
        rw (e, start_microservice_by_num)
          (start_num_answer-IsSound name i f (put_service parts name ms' s' msc)
            (put-IsSound name ms' s' msc h' (a h.1 v.1) v))
  ]

  start_one-IsSound :
      (name : String) (ms : Microservice) (r : Controller S C × Option (ControllerError E))
      → IsSound r.0
      → IsSound (start_one parts name ms r).0
  unfolding start_one
  start_one-IsSound name ms (msc, errs) v = elim (Bool-cases ms.startup) [
    | inl e ↦ elim (Option-cases (start_service parts name msc).1) [
      | inl f ↦ rw (e, f, start_one) (status-IsSound true name _ (start_service-IsSound name msc v))
      | inr (x, f) ↦ rw (e, f, start_one) (start_service-IsSound name msc v)
    ]
    | inr e ↦ rw (e, start_one) v
  ]

  -- Without a nil service the loop ends without a panic.
  pub startup_loop-IsSound :
      (m : Dict (Option Microservice)) (r : Controller S C × Option (ControllerError E))
      → AllValues IsPresent m
      → IsSound r.0
      → (r' : Controller S C × Option (ControllerError E)) × (startup_loop parts m r ≡ some r')
        × IsSound r'.0
  unfolding startup_loop
  startup_loop-IsSound [] r p v = (r, refl, v)
  startup_loop-IsSound ((name, none) ∷ m) r p v = absurd p.0
  startup_loop-IsSound ((name, some ms) ∷ m) r p v =
      startup_loop-IsSound m (start_one parts name ms r) p.1 (start_one-IsSound name ms r v)
