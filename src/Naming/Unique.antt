-- ===== src/Naming/Unique.antt =====
-- The names made since the version annotation exists: `RCCUniqueName` keeps distinct what it is
-- given, whatever the hash.
use Prim.Native.String.{count}
use text.Mathlib.TextLemmas.{length-append, append_inj, append_assoc}
use codeflare_operator.Base.{
  ℕ, ◌+◌, String, ◌<>◌, ◌≡◌, ◌≢◌, refl, sym, ap, ◌∙◌, false, arith, eq_iff,
}
use codeflare_operator.Host.{Host, IsSha256}
use codeflare_operator.Kube.{RayCluster}
use codeflare_operator.Naming.Hash.{seeded_hash, count-seeded_hash}
use codeflare_operator.Naming.{
  controller_name, should_use_old_name, rcc_unique_name, oauth_service_account_name_from_cluster,
  oauth_service_name_from_cluster, oauth_service_tls_secret_name, oauth_secret_name_from_cluster,
  ca_secret_name_from_cluster, worker_nwp_name_from_cluster, head_nwp_name_from_cluster,
}

-- Two texts with tails of one length are equal part by part.
pub append_inj_right : (x y s t : String) → count s ≡ count t → x <> s ≡ y <> t → (x ≡ y) × (s ≡ t)
append_inj_right x y s t same e =
    append_inj e (omega (arith, ap count e, length-append x s, length-append y t))

tails_apart : (x y s t : String) → count s ≡ count t → s ≢ t → x <> s ≢ y <> t
tails_apart x y s t same differ e = differ (append_inj_right x y s t same e).1

-- Tails that end unlike: the last parts have one length and differ.
ends_apart :
    (x y s t : String) {u v : String} → count u ≡ count v → u ≢ v → x <> (s <> u) ≢ y <> (t <> v)
ends_apart x y s t {u} {v} same differ e =
    tails_apart (x <> s) (y <> t) u v same differ
      (append_assoc x s u ∙ e ∙ sym (append_assoc y t v))

g-ne-t : ◌≢◌ {A = String} "g" "t"
g-ne-t = ground (arith, eq_iff "g" "t")

d-ne-s : ◌≢◌ {A = String} "d" "s"
d-ne-s = ground (arith, eq_iff "d" "s")

tls-ne-ca : ◌≢◌ {A = String} "tls-secret" "-ca-secret"
tls-ne-ca = ground (arith, eq_iff "tls-secret" "-ca-secret")

module _ (h : Host) (is_sha : IsSha256 h) where
  -- `RCCUniqueName` is injective, even where two hashes collide.
  pub rcc_unique_name-injective : (s t : String) → rcc_unique_name h s ≡ rcc_unique_name h t → s ≡ t
  unfolding rcc_unique_name
  rcc_unique_name-injective s t e =
      (append_inj_right s t _ _
        (length-append "-" (seeded_hash h controller_name s)
          ∙ ap (λ (n : ℕ). count "-" + n)
              (count-seeded_hash h is_sha controller_name s
                ∙ sym (count-seeded_hash h is_sha controller_name t))
          ∙ sym (length-append "-" (seeded_hash h controller_name t)))
        e).0

  tail-injective :
      (x y s : String) → rcc_unique_name h (x <> s) ≡ rcc_unique_name h (y <> s) → x ≡ y
  tail-injective x y s e =
      (append_inj_right x y s s refl (rcc_unique_name-injective (x <> s) (y <> s) e)).0

  module _ (c d : RayCluster) (c_new : should_use_old_name c ≡ false)
      (d_new : should_use_old_name d ≡ false) where
    names_injective :
        (oauth_service_account_name_from_cluster h c ≡ oauth_service_account_name_from_cluster h d
          → c.name ≡ d.name)
        × (oauth_service_name_from_cluster h c ≡ oauth_service_name_from_cluster h d
            → c.name ≡ d.name)
        × (oauth_service_tls_secret_name h c ≡ oauth_service_tls_secret_name h d → c.name ≡ d.name)
        × (oauth_secret_name_from_cluster h c ≡ oauth_secret_name_from_cluster h d
            → c.name ≡ d.name)
        × (ca_secret_name_from_cluster h c ≡ ca_secret_name_from_cluster h d → c.name ≡ d.name)
        × (worker_nwp_name_from_cluster h c ≡ worker_nwp_name_from_cluster h d → c.name ≡ d.name)
        × (head_nwp_name_from_cluster h c ≡ head_nwp_name_from_cluster h d → c.name ≡ d.name)
    unfolding oauth_service_account_name_from_cluster oauth_service_name_from_cluster
        oauth_service_tls_secret_name oauth_secret_name_from_cluster ca_secret_name_from_cluster
        worker_nwp_name_from_cluster head_nwp_name_from_cluster
    names_injective =
        rw (c_new, d_new)
          (
            tail-injective c.name d.name "-oauth-proxy",
            tail-injective c.name d.name "-oauth",
            tail-injective c.name d.name "-proxy-tls-secret",
            tail-injective c.name d.name "-oauth-config",
            tail-injective c.name d.name "-ca-secret",
            tail-injective c.name d.name "-workers",
            tail-injective c.name d.name "-head",
          )

    -- Two annotated clusters of different names share no name of an OAuth service account, of an
    -- OAuth service, of one of the three secrets or of one of the two network policies.
    pub names_apart :
        c.name ≢ d.name
        → (oauth_service_account_name_from_cluster h c
            ≢ oauth_service_account_name_from_cluster h d)
          × (oauth_service_name_from_cluster h c ≢ oauth_service_name_from_cluster h d)
          × (oauth_service_tls_secret_name h c ≢ oauth_service_tls_secret_name h d)
          × (oauth_secret_name_from_cluster h c ≢ oauth_secret_name_from_cluster h d)
          × (ca_secret_name_from_cluster h c ≢ ca_secret_name_from_cluster h d)
          × (worker_nwp_name_from_cluster h c ≢ worker_nwp_name_from_cluster h d)
          × (head_nwp_name_from_cluster h c ≢ head_nwp_name_from_cluster h d)
    names_apart differ =
        let (account, service, tls, oauth, ca, workers, head) = names_injective in
        (
          λ e. differ (account e),
          λ e. differ (service e),
          λ e. differ (tls e),
          λ e. differ (oauth e),
          λ e. differ (ca e),
          λ e. differ (workers e),
          λ e. differ (head e),
        )

    -- The three kinds of secrets of annotated clusters never share a name, within a cluster or
    -- between two; nor do a head and a workers network policy.
    pub kinds_apart :
        (oauth_secret_name_from_cluster h c ≢ ca_secret_name_from_cluster h d)
        × (oauth_secret_name_from_cluster h c ≢ oauth_service_tls_secret_name h d)
        × (oauth_service_tls_secret_name h c ≢ ca_secret_name_from_cluster h d)
        × (head_nwp_name_from_cluster h c ≢ worker_nwp_name_from_cluster h d)
    unfolding oauth_service_tls_secret_name oauth_secret_name_from_cluster
        ca_secret_name_from_cluster worker_nwp_name_from_cluster head_nwp_name_from_cluster
    kinds_apart =
        rw (c_new, d_new)
          (
            λ e.
                ends_apart c.name d.name "-oauth-confi" "-ca-secre" refl g-ne-t
                  (rcc_unique_name-injective _ _ e),
            λ e.
                ends_apart c.name d.name "-oauth-confi" "-proxy-tls-secre" refl g-ne-t
                  (rcc_unique_name-injective _ _ e),
            λ e.
                ends_apart c.name d.name "-proxy-" "" refl tls-ne-ca
                  (rcc_unique_name-injective _ _ e),
            λ e.
                ends_apart c.name d.name "-hea" "-worker" refl d-ne-s
                  (rcc_unique_name-injective _ _ e),
          )
