-- ===== src/K8s/Laws.antt =====
-- What a successful Apply of pkg/k8s/ leaves in the cluster.
use aion_core.Prelude.{
  String, Option, none, some, ◌≡◌, refl, sym, ap, subst, ◌∙◌, Option-cases, inl, inr, arith,
}
use aion_core.K8s.Api.{
  Api, Retry, K8sError, create_failed, update_failed, failed_with, delete_object, create_object,
  update_object, create_or_update, then_create, create_or_replace,
}

-- What the documentation of the client says of its writes: one that answers without an error
-- stores the object under its name.
pub record ApiLaws {S O : Type 0} (api : Api S O) (name_of : O → String) : Type 1 where
  pub stored : S → String → Option O
  pub created :
      (o : O) (s : S) → (api.create o s).1 ≡ none → stored (api.create o s).0 (name_of o) ≡ some o
  pub updated :
      (o : O) (s : S) → (api.update o s).1 ≡ none → stored (api.update o s).0 (name_of o) ≡ some o

failed_with-none :
    {S : Type 0} (e : String → K8sError) (r : S × Option String)
    → (failed_with e r).1 ≡ none
    → (r.1 ≡ none) × ((failed_with e r).0 ≡ r.0)
failed_with-none e (s, none) h = (refl, refl)
failed_with-none e (s, some m) h = ground (arith, h)

module _ {S O : Type 0} (api : Api S O) (name_of : O → String) (laws : ApiLaws api name_of)
    (retry : Retry S) where
  -- A result stores `o` if it is no error.
  Stores : O → S × Option K8sError → Type 0
  Stores o r = (r.1 ≡ none) → laws.stored r.0 (name_of o) ≡ some o

  by_step : (o : O) {a b : S × Option K8sError} → a ≡ b → Stores o b → Stores o a
  by_step o e t = subst (Stores o) (sym e) t

  create_object-stored :
      (o : O) (s : S)
      → (create_object api retry o s).1 ≡ none
      → laws.stored (create_object api retry o s).0 (name_of o) ≡ some o
  unfolding create_object
  create_object-stored o s h =
      let (fine, same) = failed_with-none create_failed (api.create o s) h in
      ap (λ t. laws.stored t (name_of o)) same ∙ laws.created o s fine

  update_object-stored :
      (o : O) (s : S)
      → (update_object api retry o s).1 ≡ none
      → laws.stored (update_object api retry o s).0 (name_of o) ≡ some o
  unfolding update_object
  update_object-stored o s h =
      let (fine, same) = failed_with-none update_failed (api.update o s) h in
      ap (λ t. laws.stored t (name_of o)) same ∙ laws.updated o s fine

  pub create_or_update-stored :
      (name : String) (o : O) (s : S)
      → (create_or_update api retry name o s).1 ≡ none
      → laws.stored (create_or_update api retry name o s).0 (name_of o) ≡ some o
  unfolding create_or_update Stores by_step
  create_or_update-stored name o s h =
      let s' = (api.get name s).0 in
      elim (Option-cases (api.get name s).1) [
        | inl e ↦
            let step : create_or_update api retry name o s ≡ update_object api retry o s' =
              ground (arith, e) in
            by_step o step (update_object-stored o s') h
        | inr (m, e) ↦
            let step : create_or_update api retry name o s ≡ create_object api retry o s' =
              ground (arith, e) in
            by_step o step (create_object-stored o s') h
      ]

  then_create-stored :
      (o : O) (r : S × Option K8sError)
      → (then_create api retry o r).1 ≡ none
      → laws.stored (then_create api retry o r).0 (name_of o) ≡ some o
  unfolding then_create
  then_create-stored o (s, none) h = create_object-stored o s h
  then_create-stored o (s, some e) h = ground (arith, h)

  pub create_or_replace-stored :
      (target name : String) (o : O) (s : S)
      → (create_or_replace api retry target name o s).1 ≡ none
      → laws.stored (create_or_replace api retry target name o s).0 (name_of o) ≡ some o
  unfolding create_or_replace Stores by_step
  create_or_replace-stored target name o s h =
      let s' = (api.get name s).0 in
      elim (Option-cases (api.get name s).1) [
        | inl e ↦
            let deleted = delete_object api retry target name s' in
            let step : create_or_replace api retry target name o s
                ≡ then_create api retry o deleted =
              ground (arith, e) in
            by_step o step (then_create-stored o deleted) h
        | inr (m, e) ↦
            let step : create_or_replace api retry target name o s ≡ create_object api retry o s' =
              ground (arith, e) in
            by_step o step (create_object-stored o s') h
      ]
