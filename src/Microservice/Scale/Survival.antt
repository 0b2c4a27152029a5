-- ===== src/Microservice/Scale/Survival.antt =====
-- Requests of scale_container.go that do not end the program.
use aion_core.Prelude.{
  ℕ, ◌+◌, ◌≡◌, inl, inr, Option-cases, Bool, Bool-cases, true, some, subst, arith,
}
use aion_core.Prelude.Int.{ℤ, eq_ℤ, lookup_int, insert_int, lookup_int-insert_int}
use aion_core.Microservice.Scale.{
  ContainerOps, ContainerStatus, ScaleContainer, start_microservice, stop_microservice,
}

-- The starts of safe containers, and all stops, leave the program alive.
pub record Survival {S C E : Type 0} (ops : ContainerOps S C E) (alive : S → Bool)
    (Safe : C → Type 0) : Type 0 where
  pub starts : (c : C) (s : S) → Safe c → alive s ≡ true → alive (ops.start_process c s).0 ≡ true
  pub stops : (c : C) (s : S) → alive s ≡ true → alive (ops.stop_all_process c s).0 ≡ true

module _ {C : Type 0} (Safe : C → Type 0) where
  -- The containers of all replicas are safe.
  abbrev pub AllSafe : ScaleContainer C → Type 0
  AllSafe sc =
      (n : ℤ) (status : ContainerStatus C)
      → lookup_int n sc.container_list ≡ some status
      → Safe status.container

  insert-Safe :
      (sc : ScaleContainer C) (m n : ℤ) (st t : ContainerStatus C) (k : ℕ)
      → lookup_int m sc.container_list ≡ some st
      → AllSafe sc
      → lookup_int n (insert_int m (record st { num_of_up_state = k }) sc.container_list) ≡ some t
      → Safe t.container
  insert-Safe sc m n st t k e safe h =
      let now = lookup_int-insert_int m n (record st { num_of_up_state = k }) sc.container_list in
      elim (Bool-cases (eq_ℤ m n)) [
        | inl f ↦
            let same : record st { num_of_up_state = k } ≡ t = ground (arith, now, f, h) in
            subst (λ x. Safe x.container) same (safe m st e)
        | inr f ↦ safe n t (ground (arith, now, f, h))
      ]

module _ {S C E : Type 0} (ops : ContainerOps S C E) (Safe : C → Type 0) (sc : ScaleContainer C)
    (m : ℤ) (s : S) where
  pub start_microservice-AllSafe : AllSafe Safe sc → AllSafe Safe (start_microservice ops sc m s).0
  unfolding start_microservice
  start_microservice-AllSafe safe n t h = elim (Option-cases (lookup_int m sc.container_list)) [
    | inl e ↦ safe n t (ground (arith, e, h))
    | inr (st, e) ↦ elim (Option-cases (start_microservice ops sc m s).2) [
      | inl f ↦
          insert-Safe Safe sc m n st t (st.num_of_up_state + 1) e safe (ground (arith, e, f, h))
      | inr (x, f) ↦ safe n t (ground (arith, e, f, h))
    ]
  ]

  pub stop_microservice-AllSafe : AllSafe Safe sc → AllSafe Safe (stop_microservice ops sc m s).0
  unfolding stop_microservice
  stop_microservice-AllSafe safe n t h = elim (Option-cases (lookup_int m sc.container_list)) [
    | inl e ↦ safe n t (ground (arith, e, h))
    | inr (st, e) ↦ elim (Option-cases (stop_microservice ops sc m s).2) [
      | inl f ↦ insert-Safe Safe sc m n st t 0 e safe (ground (arith, e, f, h))
      | inr (x, f) ↦ safe n t (ground (arith, e, f, h))
    ]
  ]

module _ {S C E : Type 0} (ops : ContainerOps S C E) (alive : S → Bool) (Safe : C → Type 0)
    (survival : Survival ops alive Safe) (sc : ScaleContainer C) (m : ℤ) (s : S) where
  pub start_microservice-alive :
      AllSafe Safe sc → alive s ≡ true → alive (start_microservice ops sc m s).1 ≡ true
  unfolding start_microservice
  start_microservice-alive safe a = elim (Option-cases (lookup_int m sc.container_list)) [
    | inl e ↦ ground (arith, e, a)
    | inr (st, e) ↦
        let after = survival.starts st.container s (safe m st e) a in ground (arith, e, a, after)
  ]

  pub stop_microservice-alive : alive s ≡ true → alive (stop_microservice ops sc m s).1 ≡ true
  unfolding stop_microservice
  stop_microservice-alive a = elim (Option-cases (lookup_int m sc.container_list)) [
    | inl e ↦ ground (arith, e, a)
    | inr (st, e) ↦ let after = survival.stops st.container s a in ground (arith, e, a, after)
  ]
