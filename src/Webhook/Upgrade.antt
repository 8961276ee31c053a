-- ===== src/Webhook/Upgrade.antt =====
-- The webhook annotates a cluster that was made before the annotation existed: its names change.
use mathlib.Core.Path.{subst}
use codeflare_operator.Base.{◌≡◌, ◌≢◌, ap, true, false, some, List}
use codeflare_operator.Base.StringMap.{lookup-insert_self}
use codeflare_operator.Base.Run.{returns}
use codeflare_operator.Host.{Host, IsSha256}
use codeflare_operator.Config.{KubeRayConfiguration}
use codeflare_operator.Kube.{RayCluster, WorkerGroupSpec, PodSpec}
use codeflare_operator.Naming.{version_annotation, should_use_old_name, crb_name_from_cluster}
use codeflare_operator.Naming.Clashes.{crb_renamed}
use codeflare_operator.Webhook.Default.{RayClusterWebhook, entries, set_version, default}
use codeflare_operator.Webhook.Moved.{moved}
use codeflare_operator.Webhook.Mutation.{default-moved}

new_name-moved :
    (w : RayClusterWebhook) (c : RayCluster) (p : PodSpec) (ws : List WorkerGroupSpec)
    → should_use_old_name (moved (set_version w c) p ws) ≡ false
unfolding should_use_old_name set_version
new_name-moved w c p ws =
    rw (lookup-insert_self version_annotation w.operator_version (entries c.annotations))

-- A cluster that `Default` returned goes by the hashed names.
pub new_name-default :
    (h : Host) (w : RayClusterWebhook) (c : RayCluster) (cfg : KubeRayConfiguration)
    {c' : RayCluster}
    → w.config ≡ some cfg
    → default h w c ≡ returns c'
    → should_use_old_name c' ≡ false
new_name-default h w c cfg conf e =
    let (p, ws, same) = default-moved h w c cfg conf e in
    subst (λ d. should_use_old_name d ≡ false) same (new_name-moved w c p ws)

-- If a cluster that is not annotated goes through `Default`, the ClusterRoleBinding that it had
-- goes by another name afterwards: the one that the controller applies and deletes from then on is
-- another object.
pub crb_renamed-default :
    (h : Host)
    → IsSha256 h
    → (w : RayClusterWebhook) (c : RayCluster) (cfg : KubeRayConfiguration) {c' : RayCluster}
    → w.config ≡ some cfg
    → should_use_old_name c ≡ true
    → default h w c ≡ returns c'
    → crb_name_from_cluster h c ≢ crb_name_from_cluster h c'
unfolding set_version
crb_renamed-default h is_sha w c cfg {c'} conf old e =
    let (p, ws, same) = default-moved h w c cfg conf e in
    crb_renamed h is_sha c c' (ap (λ (d : RayCluster). d.name) same)
      (ap (λ (d : RayCluster). d.namespace) same) old (new_name-default h w c cfg conf e)
