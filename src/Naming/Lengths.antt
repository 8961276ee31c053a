-- ===== src/Naming/Lengths.antt =====
-- How long the names of the objects of an annotated RayCluster are (pkg/controllers/support.go and
-- pkg/controllers/raycluster_controller.go).
use Prim.Native.String.{count}
use text.Mathlib.TextLemmas.{length-append}
use codeflare_operator.Base.{ℕ, ◌+◌, ◌≤◌, ◌≡◌, ◌↔◌, refl, String, ◌<>◌, false, arith}
use codeflare_operator.Host.{Host, IsSha256}
use codeflare_operator.Kube.{RayCluster}
use codeflare_operator.Naming.Hash.{seeded_hash, count-seeded_hash}
use codeflare_operator.Naming.{
  controller_name, should_use_old_name, rcc_unique_name, crb_name_from_cluster,
  oauth_service_account_name_from_cluster, oauth_service_name_from_cluster,
  oauth_service_tls_secret_name, oauth_secret_name_from_cluster, ca_secret_name_from_cluster,
  worker_nwp_name_from_cluster, head_nwp_name_from_cluster,
}

module _ (h : Host) (is_sha : IsSha256 h) where
  -- `RCCUniqueName` adds nine characters.
  count-rcc_unique_name : (s : String) → count (rcc_unique_name h s) ≡ count s + 9
  unfolding rcc_unique_name
  count-rcc_unique_name s = omega (
    arith,
    length-append s ("-" <> seeded_hash h controller_name s),
    length-append "-" (seeded_hash h controller_name s),
    count-seeded_hash h is_sha controller_name s,
  )

  count-joined :
      (x s : String) (n : ℕ) → count s ≡ n → count (rcc_unique_name h (x <> s)) ≡ count x + (n + 9)
  count-joined x s n e = omega (arith, count-rcc_unique_name (x <> s), length-append x s, e)

  module _ (c : RayCluster) (c_new : should_use_old_name c ≡ false) where
    -- With the version annotation, the names of the OAuth service account, service, TLS secret and
    -- configuration secret, of the CA secret and of the two network policies are this much longer than
    -- the cluster's name, and the name of the ClusterRoleBinding than the names of the cluster and its
    -- namespace.
    pub count-names :
        (count (oauth_service_account_name_from_cluster h c) ≡ count c.name + 21)
        × (count (oauth_service_name_from_cluster h c) ≡ count c.name + 15)
        × (count (oauth_service_tls_secret_name h c) ≡ count c.name + 26)
        × (count (oauth_secret_name_from_cluster h c) ≡ count c.name + 22)
        × (count (ca_secret_name_from_cluster h c) ≡ count c.name + 19)
        × (count (worker_nwp_name_from_cluster h c) ≡ count c.name + 17)
        × (count (head_nwp_name_from_cluster h c) ≡ count c.name + 14)
        × (count (crb_name_from_cluster h c) ≡ count c.name + count c.namespace + 15)
    unfolding oauth_service_account_name_from_cluster oauth_service_name_from_cluster
        oauth_service_tls_secret_name oauth_secret_name_from_cluster ca_secret_name_from_cluster
        worker_nwp_name_from_cluster head_nwp_name_from_cluster crb_name_from_cluster
    count-names = rw c_new (
      count-joined c.name "-oauth-proxy" 12 refl,
      count-joined c.name "-oauth" 6 refl,
      count-joined c.name "-proxy-tls-secret" 17 refl,
      count-joined c.name "-oauth-config" 13 refl,
      count-joined c.name "-ca-secret" 10 refl,
      count-joined c.name "-workers" 8 refl,
      count-joined c.name "-head" 5 refl,
      omega (
        arith,
        count-joined c.name ("-" <> c.namespace <> "-auth") _ refl,
        length-append "-" (c.namespace <> "-auth"),
        length-append c.namespace "-auth",
      ),
    )

    -- With the version annotation, the name of the OAuth service has at most the 63 characters that
    -- Kubernetes allows for a service exactly if the cluster's name has at most 48.
    pub oauth_service_name-fits_iff :
        (count (oauth_service_name_from_cluster h c) ≤ 63) ↔ (count c.name ≤ 48)
    oauth_service_name-fits_iff =
        let service = count-names.1 in
        (λ k. omega (arith, service, k), λ k. omega (arith, service, k))
