-- ===== src/Broker/Modes.antt =====
-- The modes of cmd/service-broker/.
use aion_core.Prelude.{
  true, false, [], ◌∷◌, str_eq, eq_iff, ◌≡◌, ◌⊎◌, inl, inr, refl, sym, subst, arith, Bool-cases,
}
use aion_core.Broker.Main.{
  Config, default_mode, master_mode, worker_mode, get_mode, is_default_mode, is_worker_mode,
  master_server, worker_status_monitor, worker_client, default_server, tasks,
}

-- The three ways the code asks for the mode agree, whatever the environment says: each environment
-- has one of the three modes, and the tests and the tasks are those of this mode.
pub get_mode_lem :
    (env : Config)
    → ((get_mode env ≡ default_mode)
        × (is_default_mode env ≡ true)
        × (is_worker_mode env ≡ false)
        × (tasks env ≡ default_server ∷ []))
      ⊎ ((get_mode env ≡ master_mode)
          × (is_default_mode env ≡ false)
          × (is_worker_mode env ≡ false)
          × (tasks env ≡ master_server ∷ worker_status_monitor ∷ []))
      ⊎ ((get_mode env ≡ worker_mode)
          × (is_default_mode env ≡ false)
          × (is_worker_mode env ≡ true)
          × (tasks env ≡ worker_client ∷ []))
unfolding get_mode is_default_mode is_worker_mode tasks
get_mode_lem env =
    let m = env.env.mode in
    elim (Bool-cases (str_eq m master_mode)) [
      | inl e ↦
          let p : m ≡ master_mode = ground (arith, e, eq_iff m master_mode) in
          let w : str_eq m worker_mode ≡ false =
            subst (λ x. str_eq x worker_mode ≡ false) (sym p) refl in
          inr (inl (ground (arith, e, p, w), ground (arith, e), w, ground (arith, e, p, w)))
      | inr e ↦ elim (Bool-cases (str_eq m worker_mode)) [
        | inl w ↦
            let p : m ≡ worker_mode = ground (arith, w, eq_iff m worker_mode) in
            inr (inr (ground (arith, e, p, w), ground (arith, e, w), w, ground (arith, e, p, w)))
        | inr w ↦
            let g : get_mode env ≡ default_mode = elim (Bool-cases (str_eq m default_mode)) [
              | inl d ↦ ground (arith, d, eq_iff m default_mode)
              | inr d ↦ ground (arith, e, w, d)
            ] in
            let gm : str_eq (get_mode env) master_mode ≡ false =
              subst (λ x. str_eq x master_mode ≡ false) (sym g) refl in
            let gw : str_eq (get_mode env) worker_mode ≡ false =
              subst (λ x. str_eq x worker_mode ≡ false) (sym g) refl in
            inl (g, ground (arith, e, w), w, ground (arith, gm, gw))
      ]
    ]
