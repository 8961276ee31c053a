-- ===== src/Webhook/Idempotent/Again.antt =====
-- Each branch of `Default` (pkg/controllers/raycluster_webhook.go) on what the branches before
-- returned.
use mathlib.Core.Path.{subst}
use codeflare_operator.Base.{
  ◌≡◌, inl, inr, refl, ap, ◌∙◌, sym, true, false, List, ◌∷◌, arith, some, Bool, Bool-cases,
  eq-of-false, ◌==◌,
}
use codeflare_operator.Base.Lists.{List-cases}
use codeflare_operator.Base.StringMap.{insert_idem}
use codeflare_operator.Base.Run.{returns, returns-injective}
use codeflare_operator.Host.{Host}
use codeflare_operator.Config.{KubeRayConfiguration}
use codeflare_operator.Kube.{RayCluster, WorkerGroupSpec, PodSpec, Container, head_pod}
use codeflare_operator.Naming.{version_annotation}
use codeflare_operator.Support.{upsert, with_container_name, with_volume_name}
use codeflare_operator.Support.Upsert.{find_first, upsert-eq_self}
use codeflare_operator.Webhook.Parts.{
  ca_volumes, ray_head_init_container, oauth_proxy_container_name, oauth_proxy_volume_name,
  oauth_proxy_container, oauth_proxy_tls_secret_volume,
}
use codeflare_operator.Webhook.Default.{
  RayClusterWebhook, entries, set_version, add_mtls, secure_head, secure_workers,
}
use codeflare_operator.Webhook.Loops.{
  container_key, volume_key, secured, secured_pod, secure_head-cons, secure_head-nil,
}
use codeflare_operator.Webhook.Secured.{
  IsSecuredPod, secure_head-IsSecuredPod, secure_head-eq_self, secure_workers-AllSecured,
  secure_workers-eq_self, secured_pod-again, head_init-named,
}
use codeflare_operator.Webhook.Injected.{
  FirstIsOwn, IsGuardedPod, guarded_pod, proxy_volume-upsert_all, secure_head-IsGuardedPod,
}
use codeflare_operator.Webhook.Moved.{
  moved, oauth_proxy_container-moved, oauth_proxy_tls_secret_volume-moved,
  oauth_service_account_name-moved,
}
use codeflare_operator.Webhook.Mutation.{
  front_pod, front, IsGuardedPod-moved, IsSecuredPod-moved, AllSecured-moved,
}

pub set_version_idem :
    (w : RayClusterWebhook) (c : RayCluster) (p : PodSpec) (ws : List WorkerGroupSpec)
    → set_version w (moved (set_version w c) p ws) ≡ moved (set_version w c) p ws
unfolding set_version
set_version_idem w c p ws =
    ap (λ a. record (moved (set_version w c) p ws) { annotations = some a })
      (insert_idem version_annotation w.operator_version (entries c.annotations))

module _ (h : Host) where
  guarded_pod-eq_self :
      (c : RayCluster) (pod : PodSpec) → IsGuardedPod h c pod → guarded_pod h c pod ≡ pod
  guarded_pod-eq_self c pod g =
      let p =
        upsert-eq_self container_key (with_container_name oauth_proxy_container_name)
          (oauth_proxy_container h c) (unfold oauth_proxy_container in λ t. refl) pod.containers
          (unfold oauth_proxy_container in g.container_found) in
      let q =
        upsert-eq_self volume_key (with_volume_name oauth_proxy_volume_name)
          (oauth_proxy_tls_secret_volume h c) (unfold oauth_proxy_tls_secret_volume in λ t. refl)
          pod.volumes (unfold oauth_proxy_tls_secret_volume in g.volume_found) in
      let r = sym g.account_eq in
      λ i. record pod { containers = p i; volumes = q i; service_account_name = r i }

  pub front-eq_self :
      (oauth : Bool) (c : RayCluster)
      → (oauth ≡ true → IsGuardedPod h c (head_pod c))
      → front h oauth c ≡ c
  front-eq_self true c g =
      ap (λ p. moved c p c.spec.worker_group_specs) (guarded_pod-eq_self c (head_pod c) (g refl))
  front-eq_self false c g = refl

  -- A first container that is named like the proxy is the proxy.
  first_is_proxy :
      (c : RayCluster) (ct : Container) (rest : List Container)
      → (ct.name == oauth_proxy_container_name) ≡ true
      → find_first container_key oauth_proxy_container_name (ct ∷ rest)
        ≡ some (oauth_proxy_container h c)
      → oauth_proxy_container h c ≡ ct
  unfolding find_first
  first_is_proxy c ct rest same found = ground (arith, same)

  module _ (cfg : KubeRayConfiguration) (g : RayCluster) (p : PodSpec) (ws : List WorkerGroupSpec)
      (hp : secure_head h cfg g (head_pod g) ≡ returns p) where
    secured_again : IsSecuredPod (ca_volumes h g) (ray_head_init_container h g cfg) p
    secured_again = secure_head-IsSecuredPod h cfg g (head_pod g) hp

    head_again-plain : (q : PodSpec) → secure_head h cfg (moved g q ws) p ≡ returns p
    head_again-plain q =
        secure_head-eq_self h cfg (moved g q ws) p (IsSecuredPod-moved h cfg g q ws p secured_again)

    module _ (ct : Container) (rest : List Container) (q : (head_pod g).containers ≡ ct ∷ rest)
        (guard : IsGuardedPod h g (head_pod g)) where
      p-eq : secured_pod (ca_volumes h g) (ray_head_init_container h g cfg) ct rest (head_pod g) ≡ p
      p-eq = returns-injective (sym (secure_head-cons h cfg g ct rest (head_pod g) q) ∙ hp)

      containers-eq : p.containers ≡ secured ct ∷ rest
      unfolding secured_pod
      containers-eq = ap (λ (x : PodSpec). x.containers) (sym p-eq)

      volume_kept :
          find_first volume_key oauth_proxy_volume_name p.volumes
          ≡ some (oauth_proxy_tls_secret_volume h g)
      unfolding secured_pod
      volume_kept =
          ap (λ (x : PodSpec). find_first volume_key oauth_proxy_volume_name x.volumes) (sym p-eq)
          ∙ proxy_volume-upsert_all h g (head_pod g).volumes
          ∙ guard.volume_found

      account_kept : p.service_account_name ≡ (head_pod g).service_account_name
      unfolding secured_pod
      account_kept = ap (λ (x : PodSpec). x.service_account_name) (sym p-eq)

      upsert-proxy :
          (item : Container)
          → (ct.name == oauth_proxy_container_name) ≡ true
          → upsert (secured ct ∷ rest) item (with_container_name oauth_proxy_container_name)
            ≡ item ∷ rest
      unfolding upsert secured
      upsert-proxy item same = simp same

      tls_kept :
          upsert p.volumes
            (oauth_proxy_tls_secret_volume h (moved g p ws))
            (with_volume_name oauth_proxy_volume_name)
          ≡ p.volumes
      unfolding oauth_proxy_tls_secret_volume
      tls_kept =
          upsert-eq_self volume_key (with_volume_name oauth_proxy_volume_name)
            (oauth_proxy_tls_secret_volume h (moved g p ws)) (λ t. refl) p.volumes
            (volume_kept ∙ ap some (sym (oauth_proxy_tls_secret_volume-moved h g p ws)))

      -- The proxy comes first: it is put again as it was before its variables and mounts.
      guarded_pod-proxy_first :
          (ct.name == oauth_proxy_container_name) ≡ true
          → guarded_pod h (moved g p ws) p ≡ record p { containers = ct ∷ rest }
      guarded_pod-proxy_first same =
          let is_ct =
            oauth_proxy_container-moved h g p ws
            ∙ first_is_proxy g ct rest same (
                ap (find_first container_key oauth_proxy_container_name) (sym q)
                ∙ guard.container_found) in
          let l =
            ap
              (λ xs.
                upsert xs (oauth_proxy_container h (moved g p ws))
                  (with_container_name oauth_proxy_container_name))
              containers-eq
            ∙ upsert-proxy (oauth_proxy_container h (moved g p ws)) same
            ∙ ap (λ x. x ∷ rest) is_ct in
          let r =
            oauth_service_account_name-moved h g p ws ∙ sym guard.account_eq ∙ sym account_kept in
          let v = tls_kept in
          λ i. record p { containers = l i; volumes = v i; service_account_name = r i }

      head_again-proxy_first :
          (ct.name == oauth_proxy_container_name) ≡ true
          → (x : PodSpec)
          → secure_head h cfg (moved g x ws) (record p { containers = ct ∷ rest }) ≡ returns p
      head_again-proxy_first same x =
          secure_head-cons h cfg (moved g x ws) ct rest (record p { containers = ct ∷ rest }) refl
          ∙ ap returns (
              secured_pod-again (ca_volumes h (moved g x ws))
                (ray_head_init_container h (moved g x ws) cfg)
                (head_init-named h cfg (moved g x ws)) ct rest (ct ∷ rest) p containers-eq
                (IsSecuredPod-moved h cfg g x ws p secured_again))

      -- Whether the proxy or another container comes first, the head pod is made as before.
      head_again-cons :
          (x : PodSpec)
          → secure_head h cfg (moved g x ws) (guarded_pod h (moved g p ws) p) ≡ returns p
      head_again-cons x = elim (Bool-cases (ct.name == oauth_proxy_container_name)) [
        | inl same ↦
            ap (secure_head h cfg (moved g x ws)) (guarded_pod-proxy_first same)
            ∙ head_again-proxy_first same x
        | inr other ↦
            let own =
              subst FirstIsOwn (sym q) (eq-of-false ct.name oauth_proxy_container_name other) in
            let kept = secure_head-IsGuardedPod h g cfg (head_pod g) own guard hp in
            ap (secure_head h cfg (moved g x ws))
              (guarded_pod-eq_self (moved g p ws) p (IsGuardedPod-moved h g p ws p kept))
            ∙ head_again-plain x
      ]

    head_again :
        (oauth : Bool)
        → (oauth ≡ true → IsGuardedPod h g (head_pod g))
        → (x : PodSpec)
        → secure_head h cfg (moved g x ws) (front_pod h oauth (moved g p ws)) ≡ returns p
    head_again false guard x = head_again-plain x
    head_again true guard x = elim (List-cases (head_pod g).containers) [
      | inl nil ↦ absurd (cc (secure_head-nil h cfg g (head_pod g) nil, hp))
      | inr (ct, rest, q) ↦ head_again-cons ct rest q (guard refl) x
    ]

    pub add_mtls-again :
        (oauth : Bool)
        → (oauth ≡ true → IsGuardedPod h g (head_pod g))
        → secure_workers h cfg g g.spec.worker_group_specs ≡ returns ws
        → add_mtls h cfg (front h oauth (moved g p ws)) ≡ returns (moved g p ws)
    unfolding add_mtls
    add_mtls-again oauth guard hw =
        let x = front_pod h oauth (moved g p ws) in
        rw (
          head_again oauth guard x,
          secure_workers-eq_self h cfg (moved g x ws) ws
              (AllSecured-moved h cfg g x ws ws (secure_workers-AllSecured h cfg g _ hw)),
        )
