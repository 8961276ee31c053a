-- ===== src/Startup/Discovery.antt =====
-- `isOpenShift`, `getClusterDomain` and the choice of what is cached, of main.go.
use codeflare_operator.Base.{
  String, Bool, false, ◌||◌, Option, none, some, List, [], ◌∷◌, ◌==◌, if◌then◌else◌, deref,
}
use codeflare_operator.Config.Manager.{Foreign, AppWrapperConfiguration}
use codeflare_operator.Controller.Api.{Error, Result, ok, err, api, message, wrapped}
use codeflare_operator.Startup.Text.{has_suffix}
use codeflare_operator.Startup.Platform.{
  Platform, CacheOptions, secrets, services, service_accounts, ingresses, network_policies,
  cluster_role_bindings, routes,
}
use codeflare_operator.Startup.Effect.{Act, ◌>>=◌, pure, ask}

unfoldable pub has_openshift_group : List String → Bool
has_openshift_group [] = false
has_openshift_group (g ∷ groups) = has_suffix g ".openshift.io" || has_openshift_group groups

-- The selector of each kind whose objects are cached only with the operator's label.
unfoldable pub cache_by_object : {S : Type 0} → S → Bool → CacheOptions S
cache_by_object selector is_openshift =
    (secrets, selector)
    ∷ (services, selector)
    ∷ (service_accounts, selector)
    ∷ (ingresses, selector)
    ∷ (network_policies, selector)
    ∷ (cluster_role_bindings, selector)
    ∷ (if is_openshift then (routes, selector) ∷ [] else [])

-- `cfg.AppWrapper != nil && ptr.Deref(cfg.AppWrapper.Enabled, false)`
unfoldable pub app_wrapper_enabled : {f : Foreign} → Option (AppWrapperConfiguration f) → Bool
app_wrapper_enabled none = false
app_wrapper_enabled (some aw) = deref aw.enabled false

module _ (p : Platform) where
  unfoldable pub openshift_in : Result p.Failure (List String) → Bool
  unfolding has_openshift_group
  openshift_in (ok groups) = has_openshift_group groups
  openshift_in (err e) = false

  -- `isOpenShift`: a failure counts as no.
  unfoldable pub is_openshift : Act p Bool
  unfolding openshift_in
  is_openshift = do found ← ask p.server_groups; pure (openshift_in found)

  unfoldable pub domain_from : Result p.Failure String → Result (Error p.Failure) String
  domain_from (err e) = err (wrapped "failed to get Ingress object" (api e))
  domain_from (ok domain) =
      if domain == "" then err (message "domain is not set in the Ingress object") else ok domain

  -- `getClusterDomain`
  unfoldable pub get_cluster_domain : Act p (Result (Error p.Failure) String)
  unfolding domain_from
  get_cluster_domain = do found ← ask (p.get_ingress_domain "cluster"); pure (domain_from found)
