-- ===== src/K8s/Api.antt =====
-- What pkg/k8s/ uses of the Kubernetes client and of retry-go, and what Apply and Delete of
-- deployment.go, job.go, service.go and configMap.go have in common.
use aion_core.Prelude.{ℕ, String, Option, none, some}

-- A typed client of k8s.io/client-go for one kind of object, over the states `S` of the objects of
-- this kind. Each call may fail; `get` gives an error if there is no such object. Time may pass in
-- a call.
pub record Api (S O : Type 0) : Type 0 where
  pub get : String → S → S × Option String
  pub create : O → S → S × Option String
  pub update : O → S → S × Option String
  pub delete : String → S → S × Option String

pub data K8sError : Type 0 where
  create_failed update_failed delete_failed config_failed not_deleted : String → K8sError

-- retry.Do of github.com/avast/retry-go, with a number of attempts and with the delays.
abbrev pub Retry : Type 0 → Type 0
Retry S = ℕ → (S → S × Option String) → S → S × Option String

abbrev pub conn_retry_count : ℕ
conn_retry_count = 30

abbrev pub failed_with :
    {S : Type 0} → (String → K8sError) → S × Option String → S × Option K8sError
failed_with e (s, none) = (s, none)
failed_with e (s, some message) = (s, some (e message))

module _ {S O : Type 0} (api : Api S O) (retry : Retry S) where
  -- The call that is retried: it succeeds once there is no such object.
  unfoldable pub is_gone : String → S → S × Option String
  is_gone name s =
      let (s', e) = api.get name s in
      elim e [ none ↦ (s', some "not deleted") | some message ↦ (s', none) ]

  unfoldable pub wait_gone : String → S × Option String → S × Option K8sError
  unfolding is_gone
  wait_gone name (s, some message) = (s, some (delete_failed message))
  wait_gone name (s, none) = failed_with not_deleted (retry conn_retry_count (is_gone name) s)

  -- Deployment.Delete, Job.Delete and ConfigMap.Delete: the object that is deleted is `target`,
  -- the one that is waited for `name`.
  unfoldable pub delete_object : String → String → S → S × Option K8sError
  unfolding wait_gone
  delete_object target name s = wait_gone name (api.delete target s)

  unfoldable pub create_object : O → S → S × Option K8sError
  create_object config s = failed_with create_failed (api.create config s)

  unfoldable pub update_object : O → S → S × Option K8sError
  update_object config s = failed_with update_failed (api.update config s)

  -- Deployment.Apply and ConfigMap.Apply
  unfoldable pub create_or_update : String → O → S → S × Option K8sError
  unfolding create_object update_object
  create_or_update name config s =
      let (s', e) = api.get name s in
      elim e [ some message ↦ create_object config s' | none ↦ update_object config s' ]

  unfoldable pub then_create : O → S × Option K8sError → S × Option K8sError
  unfolding create_object
  then_create config (s, some e) = (s, some e)
  then_create config (s, none) = create_object config s

  -- Job.Apply and Service.Apply
  unfoldable pub create_or_replace : String → String → O → S → S × Option K8sError
  unfolding create_object then_create delete_object
  create_or_replace target name config s =
      let (s', e) = api.get name s in
      elim e [
        | some message ↦ create_object config s'
        | none ↦ then_create config (delete_object target name s')
      ]
