-- ===== src/Webhook/Idempotent.antt =====
-- `Default` of what `Default` returned changes nothing.
pub mod Again
use mathlib.Core.Path.{subst}
use codeflare_operator.Base.{
  ◌≡◌, inl, inr, refl, ap, ◌∙◌, sym, true, false, List, ◌∷◌, arith, some, Bool, if◌then◌else◌,
  Bool-cases, Option-cases, eq-of-false, ◌==◌,
}
use codeflare_operator.Base.Lists.{List-cases}
use codeflare_operator.Base.StringMap.{insert_idem}
use codeflare_operator.Base.Run.{Run, returns, returns-injective}
use codeflare_operator.Host.{Host}
use codeflare_operator.Config.{KubeRayConfiguration, oauth_on, mtls_on}
use codeflare_operator.Kube.{RayCluster, WorkerGroupSpec, PodSpec, Container, head_pod}
use codeflare_operator.Naming.{version_annotation}
use codeflare_operator.Support.{upsert, with_container_name, with_volume_name}
use codeflare_operator.Support.Upsert.{find_first, upsert-eq_self}
use codeflare_operator.Webhook.Parts.{
  ca_volumes, ray_head_init_container, oauth_proxy_container_name, oauth_proxy_volume_name,
  oauth_proxy_container, oauth_proxy_tls_secret_volume,
}
use codeflare_operator.Webhook.Default.{
  RayClusterWebhook, entries, set_version, add_mtls, secure_head, secure_workers, default,
}
use codeflare_operator.Webhook.Loops.{
  container_key, volume_key, secured, secured_pod, secure_head-cons, secure_head-nil,
}
use codeflare_operator.Webhook.Secured.{
  IsSecuredPod, secure_head-IsSecuredPod, secure_head-eq_self, secure_workers-AllSecured,
  secure_workers-eq_self, secured_pod-again, head_init-named,
}
use codeflare_operator.Webhook.Injected.{
  FirstIsOwn, IsGuardedPod, guarded_pod, proxy_volume-upsert_all, secure_head-IsGuardedPod,
}
use codeflare_operator.Webhook.Moved.{
  moved, oauth_proxy_container-moved, oauth_proxy_tls_secret_volume-moved,
  oauth_service_account_name-moved,
}
use codeflare_operator.Webhook.Mutation.{
  front_pod, front, finish, default-eq, default-nil, add_mtls-inv, finish-inv, IsGuardedPod-moved,
  IsSecuredPod-moved, AllSecured-moved, front-IsGuardedPod,
}
use codeflare_operator.Webhook.Idempotent.Again.{set_version_idem, front-eq_self, add_mtls-again}

module _ (h : Host) where
  front-guard :
      (oauth : Bool) (c : RayCluster)
      → oauth ≡ true
      → IsGuardedPod h (front h oauth c) (front_pod h oauth c)
  front-guard oauth c on =
      IsGuardedPod-moved h c (front_pod h oauth c) c.spec.worker_group_specs (front_pod h oauth c)
        (front-IsGuardedPod h oauth c on)

  abbrev ends : Bool → KubeRayConfiguration → RayCluster → Run RayCluster
  ends mtls cfg d = if mtls then add_mtls h cfg d else returns d

  finish-again :
      (cfg : KubeRayConfiguration) (c : RayCluster) {c' : RayCluster}
      → finish h cfg (front h (oauth_on cfg) c) ≡ returns c'
      → finish h cfg (front h (oauth_on cfg) c') ≡ returns c'
  finish-again cfg c e =
      let oauth : Bool = oauth_on cfg in
      let g = front h oauth c in
      let again = λ (d : RayCluster). finish h cfg (front h oauth d) ≡ returns d in
      elim (finish-inv h (mtls_on cfg) cfg g e) [
        | inl (off, same) ↦ subst again same (
            ap (λ b. ends b cfg (front h oauth g)) off
            ∙ ap returns (front-eq_self h oauth g (front-guard oauth c)))
        | inr (on, run) ↦
            let (p, ws, hp, hw, same) = add_mtls-inv h cfg g run in
            subst again same (
              ap (λ b. ends b cfg (front h oauth (moved g p ws))) on
              ∙ add_mtls-again h cfg g p ws hp oauth (front-guard oauth c) hw)
      ]

  finish-named :
      (w : RayClusterWebhook) (cfg : KubeRayConfiguration) (c : RayCluster) {c' : RayCluster}
      → finish h cfg (front h (oauth_on cfg) (set_version w c)) ≡ returns c'
      → set_version w c' ≡ c'
  finish-named w cfg c e =
      let named = set_version w c in
      let g = front h (oauth_on cfg) named in
      elim (finish-inv h (mtls_on cfg) cfg g e) [
        | inl (off, same) ↦
            subst (λ d. set_version w d ≡ d) same
              (set_version_idem w c (front_pod h (oauth_on cfg) named)
                named.spec.worker_group_specs)
        | inr (on, run) ↦
            let (p, ws, hp, hw, same) = add_mtls-inv h cfg g run in
            subst (λ d. set_version w d ≡ d) same (set_version_idem w c p ws)
      ]

  -- `Default` is idempotent: a cluster that it returned is returned as it is, whichever flags are
  -- on and whatever container comes first in the head pod.
  pub default_idem :
      (w : RayClusterWebhook) (c : RayCluster) {c' : RayCluster}
      → default h w c ≡ returns c'
      → default h w c' ≡ returns c'
  default_idem w c {c'} e = elim (Option-cases w.config) [
    | inl nil ↦ absurd (cc (default-nil h w c nil, e))
    | inr (cfg, conf) ↦
        let run = sym (default-eq h w c cfg conf) ∙ e in
        default-eq h w c' cfg conf
        ∙ ap (λ d. finish h cfg (front h (oauth_on cfg) d)) (finish-named w cfg c run)
        ∙ finish-again cfg (set_version w c) run
  ]
