-- ===== src/Startup/Order/Domain.antt =====
-- The probes, and the ingress domain that `with_domain` leaves in the configuration.
use codeflare_operator.Base.{◌≡◌, refl, ap, true, false, not, String, ◌==◌, arith, if◌then◌else◌}
use codeflare_operator.Controller.Api.{Error, Result, ok, err}
use codeflare_operator.Startup.Platform.{Platform, KubeConfig}
use codeflare_operator.Startup.Effect.{Act, pure, ask, exit_on_error, pointee, note}
use codeflare_operator.Startup.Effect.Triple.{
  Triple, Triple-pure, Triple-ask, Triple-exit_on_error, Triple-pointee, Triple-if, Triple-weaken,
  Triple-exit_of, Triple-bind,
}
use codeflare_operator.Startup.Load.{Configuration}
use codeflare_operator.Startup.Discovery.{get_cluster_domain, domain_from}
use codeflare_operator.Startup.Main.{
  discover_domain, with_domain, readiness_after, setup_probe_endpoints,
}
use codeflare_operator.Startup.Order.{
  Progress, has_domain, fresh, rotated, probed, order, Is, Moves-ask, Moves-note, Moves-bind,
}

module _ (p : Platform) where
  abbrev pub Ordered :
      {A : Type 0} → (Progress → Type 0) → Act p A → (A → Progress → Type 0) → Type 0
  Ordered = Triple (order p.foreign.AppWrapperConfig) fresh

  -- The probes are set up where no error comes back.
  abbrev pub Probed : Result p.Failure (Unit {0}) → Progress → Type 0
  Probed (ok _) t = t ≡ probed
  Probed (err e) t = Unit

  Probed-of_eq : (r : Result p.Failure (Unit {0})) (t : Progress) → t ≡ probed → Probed r t
  Probed-of_eq (ok _) t i = i
  Probed-of_eq (err e) t i = tt

  abbrev healthy : Progress
  healthy = record rotated { healthy = true }

  pub readiness_after-Probed :
      (m : p.Manager) (name : String) (r : Result p.Failure (Unit {0}))
      → Ordered (Is healthy) (readiness_after p m name r) Probed
  unfolding readiness_after
  readiness_after-Probed m name (err e) = Triple-pure _ fresh _ Probed (λ t i. tt)
  readiness_after-Probed m name (ok _) =
      Triple-weaken _ fresh _ (λ _. Is probed) Probed Probed-of_eq
        (Moves-bind (note _) _ (Moves-note _ refl) (λ _. Moves-ask _)).triple

  pub setup_probe_endpoints-Probed :
      (m : p.Manager) (cfg : Configuration p)
      → Ordered (Is rotated) (setup_probe_endpoints p m cfg) Probed
  unfolding setup_probe_endpoints
  setup_probe_endpoints-Probed m cfg =
      Triple-bind _ fresh (note _) _ Probed (Moves-note {s = rotated} _ refl).triple (λ _.
        Triple-bind _ fresh (ask _) _ Probed (Triple-ask _ fresh _)
          (λ r. readiness_after-Probed m _ r))

  domain_from-ne :
      (r : Result p.Failure String) (domain : String)
      → domain_from p r ≡ ok domain
      → (domain == "") ≡ false
  unfolding domain_from
  domain_from-ne (err e) domain h = cc
  domain_from-ne (ok text) domain h = ground arith

  -- A configuration with a domain, under an unchanged progress.
  abbrev WithDomain : String → Progress → Type 0
  WithDomain domain t = ((domain == "") ≡ false) × (t ≡ rotated)

  abbrev Found : Result (Error p.Failure) String → Progress → Type 0
  Found r t = ((domain : String) → r ≡ ok domain → (domain == "") ≡ false) × (t ≡ rotated)

  get_cluster_domain-Found : Ordered (Is rotated) (get_cluster_domain p) Found
  unfolding get_cluster_domain
  get_cluster_domain-Found =
      Triple-bind _ fresh (ask _) _ Found (Triple-ask _ fresh _)
        (λ r. Triple-pure _ fresh _ Found (λ t i. (domain_from-ne r, i)))

  discover_domain-WithDomain :
      (k : KubeConfig p.foreign) → Ordered (Is rotated) (discover_domain p k) WithDomain
  unfolding discover_domain
  discover_domain-WithDomain k =
      Triple-bind _ fresh (exit_on_error _ _) _ WithDomain (Triple-exit_on_error _ fresh _ _) (λ _.
        Triple-bind _ fresh (get_cluster_domain p) _ WithDomain get_cluster_domain-Found (λ r.
          Triple-exit_of _ fresh r "" WithDomain (λ domain t e found. (found.0 domain e, found.1))))

  domain-WithDomain :
      (k : KubeConfig p.foreign) (given : String)
      → Ordered (Is rotated) (if given == "" then discover_domain p k else pure given) WithDomain
  domain-WithDomain k given =
      Triple-if _ fresh _ _ _ WithDomain (λ _. discover_domain-WithDomain k)
        (λ e. Triple-pure _ fresh given WithDomain (λ t i. (e, i)))

  abbrev pub Configured : Configuration p → Progress → Type 0
  Configured cfg t = (has_domain cfg.kube_ray ≡ true) × (t ≡ rotated)

  pub with_domain-Configured :
      (k : KubeConfig p.foreign) (cfg : Configuration p)
      → Ordered (Is rotated) (with_domain p k cfg) Configured
  unfolding with_domain
  with_domain-Configured k cfg =
      Triple-bind _ fresh (pointee _) _ Configured (Triple-pointee _ fresh _) (λ kube_ray.
        Triple-bind _ fresh _ _ Configured (domain-WithDomain k kube_ray.ingress_domain)
          (λ domain. Triple-pure _ fresh _ Configured (λ t i. (ap not i.0, i.1))))
