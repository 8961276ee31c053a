-- ===== src/Controller/Secrets.antt =====
-- `deleteHeadPodIfMissingImagePullSecrets` and `getHeadPod` of
-- pkg/controllers/raycluster_controller.go.
use codeflare_operator.Base.{String, ◌<>◌, Option, none, some, List, [], ◌∷◌, ◌++◌, if◌then◌else◌}
use codeflare_operator.Base.Lists.{member, remove, is_empty}
use codeflare_operator.Host.{Host}
use codeflare_operator.Kube.{RayCluster, Pod, ServiceAccount}
use codeflare_operator.Naming.{oauth_service_account_name_from_cluster}
use codeflare_operator.Controller.Api.{Api, Error, Result, ok, err, api, wrapped}
use codeflare_operator.Controller.Effect.{
  Act, ◌>>=◌, pure, call, get_service_account, list_pods, delete_pod,
}

-- The map `missingSecrets` by its keys: filled from the service account, then emptied by the pod.
unfoldable pub add_keys : List String → List String → List String
add_keys [] missing = missing
add_keys (s ∷ secrets) missing =
    add_keys secrets (if member s missing then missing else missing ++ s ∷ [])

unfoldable pub delete_keys : List String → List String → List String
delete_keys [] missing = missing
delete_keys (s ∷ secrets) missing = delete_keys secrets (remove s missing)

unfoldable pub missing_secrets : ServiceAccount → Pod → List String
unfolding add_keys delete_keys
missing_secrets account pod =
    delete_keys pod.spec.image_pull_secrets (add_keys account.image_pull_secrets [])

unfoldable pub first_pod : List Pod → Option Pod
first_pod [] = none
first_pod (p ∷ pods) = some p

module _ (a : Api) where
  -- `getHeadPod`: the first pod with the labels of the cluster's head, or nil.
  unfoldable pub get_head_pod : RayCluster → Act a (Result a.Failure (Option Pod))
  unfolding first_pod
  get_head_pod c = do
    let selector = "ray.io/node-type=head,ray.io/cluster=" <> c.name
    found ← call (list_pods c.namespace selector) (a.list_pods c.namespace selector)
    pure (elim found [ ok pods ↦ ok (first_pod pods) | err e ↦ err e ])

  unfoldable pub delete_missing : ServiceAccount → Option Pod → Act a (Option (Error a.Failure))
  unfolding missing_secrets
  delete_missing account none = pure none
  delete_missing account (some pod) =
      if is_empty (missing_secrets account pod) then pure none else do
        deleted ← call (delete_pod pod.namespace pod.name) (a.delete_pod pod.namespace pod.name)
        pure (elim deleted [
          | ok _ ↦ none
          | err e ↦ some (wrapped "failed to delete head pod" (api e))
        ])

  unfoldable pub head_pod_of :
      RayCluster → Result a.Failure ServiceAccount → Act a (Option (Error a.Failure))
  unfolding delete_missing get_head_pod
  head_pod_of c (err e) = pure (some (wrapped "failed to get OAuth ServiceAccount" (api e)))
  head_pod_of c (ok account) = do
    head_pod ← get_head_pod c
    elim head_pod [
      | err e ↦ pure (some (wrapped "failed to get head pod" (api e)))
      | ok pod ↦ delete_missing account pod
    ]

  -- `deleteHeadPodIfMissingImagePullSecrets`: nil or an error.
  unfoldable pub delete_head_pod_if_missing_image_pull_secrets :
      Host → RayCluster → Act a (Option (Error a.Failure))
  unfolding head_pod_of
  delete_head_pod_if_missing_image_pull_secrets h c = do
    let name = oauth_service_account_name_from_cluster h c
    account ← call (get_service_account c.namespace name) (a.get_service_account c.namespace name)
    head_pod_of c account
