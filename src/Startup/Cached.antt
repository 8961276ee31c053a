-- ===== src/Startup/Cached.antt =====
-- The cache of main.go and the watches of `SetupWithManager` beside what the reconciler applies
-- (pkg/controllers/raycluster_controller.go).
use codeflare_operator.Base.{◌≡◌, Bool, some}
use codeflare_operator.Base.StringMap.{lookup}
use mathlib.Core.List.{Memᴰ}
use codeflare_operator.Kube.{
  route, secret, service, service_account, cluster_role_binding, ingress, network_policy,
  RayCluster, Object, object_meta,
}
use codeflare_operator.Controller.Api.{Api}
use codeflare_operator.Controller.Desired.{ray_cluster_name_label}
use codeflare_operator.Controller.Effect.{Call, apply}
use codeflare_operator.Controller.Effect.Only.{Only}
use codeflare_operator.Controller.Reconcile.{Reconciler}
use codeflare_operator.Startup.Platform.{
  Kind, secrets, services, service_accounts, ingresses, network_policies, cluster_role_bindings,
  routes, Platform, CacheOptions,
}
use codeflare_operator.Startup.Effect.{World}
use codeflare_operator.Startup.Discovery.{is_openshift, openshift_in}
use codeflare_operator.Startup.Tasks.{watched_kinds}

abbrev pub kind_of : Object → Kind
kind_of (route meta spec) = routes
kind_of (secret meta bytes string_data) = secrets
kind_of (service meta ports selector) = services
kind_of (service_account meta) = service_accounts
kind_of (cluster_role_binding meta subjects role_ref) = cluster_role_bindings
kind_of (ingress meta spec) = ingresses
kind_of (network_policy meta spec) = network_policies

-- An applied object is of a kind that the cache restricts by the selector and that is watched, and
-- has the cluster's label.
pub HasWatched : {S : Type 0} → CacheOptions S → S → Reconciler → RayCluster → Object → Type 0
HasWatched cache selector r c o =
    Memᴰ (kind_of o, selector) cache
    × Memᴰ (kind_of o) (watched_kinds r.is_openshift)
    × (lookup ray_cluster_name_label (object_meta o).labels ≡ some c.name)

abbrev pub AppliesWatched :
    {S : Type 0} → CacheOptions S → S → Reconciler → RayCluster → Call → Type 0
AppliesWatched cache selector r c (apply field_manager force o) = HasWatched cache selector r c o
AppliesWatched cache selector r c _ = Unit

-- What `isOpenShift` finds in the world.
abbrev pub found_openshift : (p : Platform) → World p.State p.foreign.AppWrapperConfig → Bool
found_openshift p w = openshift_in p (p.server_groups w.server).0
