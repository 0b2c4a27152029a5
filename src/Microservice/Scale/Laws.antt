-- ===== src/Microservice/Scale/Laws.antt =====
-- What the start and stop requests of scale_container.go do to the counters of the replicas.
use aion_core.Prelude.{
  ℕ, suc, ◌+◌, ◌≤◌, ◌≡◌, ◌≢◌, ◌⊎◌, inl, inr, Option-cases, ◌-◌, sym, ◌∙◌, true, false, Option, none,
  some, arith, map_option, if◌then◌else◌,
}
use aion_core.Prelude.Int.{ℤ, eq_ℤ, eq_ℤ_iff, lookup_int, lookup_int-insert_int, length-insert_int}
use aion_core.Microservice.Scale.{
  ContainerOps, ScaleContainer, process, get_scale, start_microservice, stop_microservice,
}

-- The counter of replica `n`, if there is one.
unfoldable pub up_state : {C : Type 0} → ScaleContainer C → ℤ → Option ℕ
up_state sc n = map_option (λ status. status.num_of_up_state) (lookup_int n sc.container_list)

-- A service that does not allow several starts has no replica that is up twice.
pub record IsSingle {C : Type 0} (sc : ScaleContainer C) : Type 0 where
  pub at_most_once : sc.multiple ≡ false → (n : ℤ) (k : ℕ) → up_state sc n ≡ some k → k ≤ 1

module _ {S C E : Type 0} (ops : ContainerOps S C E) (sc : ScaleContainer C) (m : ℤ) (s : S) where
  -- A start is answered without an error only for a replica that exists and, unless the service
  -- allows several, is down. It raises that replica's counter by one and changes no other counter.
  pub start_microservice_ok :
      (start_microservice ops sc m s).2 ≡ none
      → (k : ℕ) × (up_state sc m ≡ some k)
        × ((sc.multiple ≡ true) ⊎ (k ≡ 0))
        × ((n : ℤ)
            → up_state (start_microservice ops sc m s).0 n
              ≡ (if eq_ℤ m n then some (k + 1) else up_state sc n))
  unfolding start_microservice up_state
  start_microservice_ok h = elim (Option-cases (lookup_int m sc.container_list)) [
    | inl e ↦ ground (arith, e)
    | inr (st, e) ↦ (
      st.num_of_up_state,
      ground arith,
      ground arith,
      λ n. ground (
        arith,
        lookup_int-insert_int m n (record st { num_of_up_state = st.num_of_up_state + 1 })
            sc.container_list,
      ),
    )
  ]

  -- A start that is answered with an error leaves the replicas as they were.
  pub start_microservice_error :
      (start_microservice ops sc m s).2 ≢ none → (start_microservice ops sc m s).0 ≡ sc
  unfolding start_microservice
  start_microservice_error h = ground arith

  -- A stop is answered without an error only for a replica that is up. It sets that replica's
  -- counter to zero, however often it was started, and changes no other counter.
  pub stop_microservice_ok :
      (stop_microservice ops sc m s).2 ≡ none
      → (k : ℕ) × (up_state sc m ≡ some (suc k))
        × ((n : ℤ)
            → up_state (stop_microservice ops sc m s).0 n
              ≡ (if eq_ℤ m n then some 0 else up_state sc n))
  unfolding stop_microservice up_state
  stop_microservice_ok h = elim (Option-cases (lookup_int m sc.container_list)) [
    | inl e ↦ ground (arith, e)
    | inr (st, e) ↦ (
      st.num_of_up_state - 1,
      ground arith,
      λ n.
          ground (
            arith,
            lookup_int-insert_int m n (record st { num_of_up_state = 0 }) sc.container_list,
          ),
    )
  ]

  -- A stop that is answered with an error leaves the replicas as they were.
  pub stop_microservice_error :
      (stop_microservice ops sc m s).2 ≢ none → (stop_microservice ops sc m s).0 ≡ sc
  unfolding stop_microservice
  stop_microservice_error h = ground arith

  pub start_microservice-multiple : (start_microservice ops sc m s).0.multiple ≡ sc.multiple
  unfolding start_microservice
  start_microservice-multiple = ground arith

  pub stop_microservice-multiple : (stop_microservice ops sc m s).0.multiple ≡ sc.multiple
  unfolding stop_microservice
  stop_microservice-multiple = ground arith

  -- No start, whether it succeeds or not, puts a replica of a single service up twice.
  pub start_microservice-IsSingle : IsSingle sc → IsSingle (start_microservice ops sc m s).0
  start_microservice-IsSingle v = elim (Option-cases (start_microservice ops sc m s).2) [
    | inl h ↦
        let (k, was, allowed, now) = start_microservice_ok h in
        record {
          at_most_once = λ single n j up.
              let single' : sc.multiple ≡ false = sym start_microservice-multiple ∙ single in
              ground (arith, now n, v.at_most_once single' n j);
        }
    | inr (e, h) ↦ rw (start_microservice_error (λ h'. cc)) v
  ]

  -- No stop puts a replica up.
  pub stop_microservice-IsSingle : IsSingle sc → IsSingle (stop_microservice ops sc m s).0
  stop_microservice-IsSingle v = elim (Option-cases (stop_microservice ops sc m s).2) [
    | inl h ↦
        let (k, was, now) = stop_microservice_ok h in
        record {
          at_most_once = λ single n j up.
              let single' : sc.multiple ≡ false = sym stop_microservice-multiple ∙ single in
              ground (arith, now n, v.at_most_once single' n j);
        }
    | inr (e, h) ↦ rw (stop_microservice_error (λ h'. cc)) v
  ]

-- A replica that was stopped without an error may be started again: only its process can fail.
pub start-stop_microservice :
    {S C E : Type 0} (ops : ContainerOps S C E) (sc : ScaleContainer C) (m : ℤ) (s t : S)
    → (stop_microservice ops sc m s).2 ≡ none
    → let e = (start_microservice ops (stop_microservice ops sc m s).0 m t).2 in
      (e ≡ none) ⊎ ((f : E) × (e ≡ some (process f)))
unfolding start_microservice stop_microservice get_scale
start-stop_microservice ops sc m s t h = elim (Option-cases (lookup_int m sc.container_list)) [
  | inl e ↦ ground (arith, e)
  | inr (st, e) ↦
      let down = record st { num_of_up_state = 0 } in
      ground (
        arith,
        eq_ℤ_iff m m,
        lookup_int-insert_int m m down sc.container_list,
        length-insert_int m down {w = st} sc.container_list,
      )
]
