-- ===== src/Tests/Webhooks.antt =====
-- The webhook on a cluster with one worker group, with OAuth and mTLS on.
use codeflare_operator.Base.{◌≡◌, ◌≢◌, refl, true, false, some, [], arith, eq_iff, String, ◌↔◌}
use codeflare_operator.Base.Run.{returns}
use codeflare_operator.Config.{oauth_on, mtls_on}
use codeflare_operator.Kube.{RayCluster}
use codeflare_operator.Support.{upsert}
use codeflare_operator.Naming.{should_use_old_name, crb_name_from_cluster}
use codeflare_operator.Webhook.Parts.{env_var_list, cert_volume_mounts, oauth_proxy_container_name}
use codeflare_operator.Webhook.Default.{
  set_version, put_env, put_mounts, put_volumes, add_oauth, secure_head, secure_worker,
  secure_workers, add_mtls, default,
}
use codeflare_operator.Webhook.Validate.{validate_create, validate_update}
use codeflare_operator.Webhook.Injected.{IsInjected}
use codeflare_operator.Webhook.Mutation.{default-IsInjected}
use codeflare_operator.Webhook.Accept.{
  NoIngress, OauthAccepted, MtlsAccepted, validate_create_iff, validate_update_iff,
}
use codeflare_operator.Webhook.Consistent.{default-accepted}
use codeflare_operator.Webhook.Idempotent.{default_idem}
use codeflare_operator.Webhook.Total.{runs, runnable, runs-default}
use codeflare_operator.Webhook.Upgrade.{new_name-default, crb_renamed-default}
use codeflare_operator.Tests.Data.{
  host, host-IsSha256, webhook, configuration, cluster, proxy_cluster, value_or,
}
use codeflare_operator.Tests.Semantics.{semantic, semantic-IsReflexive}

injected : RayCluster
unfolding default
injected = value_or (default host webhook cluster) cluster

injected_proxy : RayCluster
unfolding default
injected_proxy = value_or (default host webhook proxy_cluster) proxy_cluster

run_cluster : default host webhook cluster ≡ returns injected
unfolding default set_version put_env put_mounts put_volumes add_oauth secure_head secure_worker
    secure_workers add_mtls upsert injected env_var_list cert_volume_mounts
run_cluster = refl

run_proxy : default host webhook proxy_cluster ≡ returns injected_proxy
unfolding default set_version put_env put_mounts put_volumes add_oauth secure_head secure_worker
    secure_workers add_mtls upsert injected_proxy env_var_list cert_volume_mounts
run_proxy = refl

head_is_own : ◌≢◌ {A = String} "ray-head" oauth_proxy_container_name
head_is_own = ground (arith, eq_iff "ray-head" "oauth-proxy")

is_old : should_use_old_name cluster ≡ true
unfolding should_use_old_name
is_old = refl

default-IsInjected_example : IsInjected host configuration injected
default-IsInjected_example =
    default-IsInjected host webhook cluster configuration refl (λ _ _. head_is_own) run_cluster

default-accepted_example :
    (validate_create host semantic webhook injected ≡ returns [])
    × (validate_update host semantic webhook cluster injected ≡ returns [])
default-accepted_example =
    default-accepted host semantic semantic-IsReflexive webhook cluster configuration cluster refl
      refl (λ _ _. head_is_own) run_cluster

default_idem_example : default host webhook injected ≡ returns injected
default_idem_example = default_idem host webhook cluster run_cluster

runs-default_example : runs (default host webhook cluster) ≡ runnable (some configuration) cluster
runs-default_example = runs-default host webhook cluster

validate_create_iff_example : (validate_create host semantic webhook injected ≡ returns []) ↔ (
    NoIngress semantic host injected
    × (oauth_on configuration ≡ true → OauthAccepted semantic host injected))
validate_create_iff_example = validate_create_iff semantic host webhook injected configuration refl

validate_update_iff_example :
    (validate_update host semantic webhook cluster cluster ≡ returns []) ↔ (
      NoIngress semantic host cluster
      × ((oauth_on configuration ≡ true → OauthAccepted semantic host cluster)
          × (mtls_on configuration ≡ true → MtlsAccepted semantic host configuration cluster)))
validate_update_iff_example =
    validate_update_iff semantic host webhook cluster cluster configuration refl refl

new_name-default_example : should_use_old_name injected ≡ false
new_name-default_example = new_name-default host webhook cluster configuration refl run_cluster

crb_renamed-default_example :
    crb_name_from_cluster host cluster ≢ crb_name_from_cluster host injected
crb_renamed-default_example =
    crb_renamed-default host host-IsSha256 webhook cluster configuration refl is_old run_cluster
