-- ===== src/Tests/Startups.antt =====
-- The start-up on a platform where every call succeeds and no ConfigMap is there yet.
use codeflare_operator.Base.{ℕ, ◌≡◌, refl, String, Bool, true, Option, some, none, [], ◌∷◌}
use mathlib.Core.List.{Memᴰ}
use codeflare_operator.Config.{KubeRayConfiguration}
use codeflare_operator.Config.Manager.{Foreign}
use codeflare_operator.Controller.Api.{Api, ok, err}
use codeflare_operator.Controller.Effect.Ends.{Concludes}
use codeflare_operator.Controller.Effect.Only.{Only}
use codeflare_operator.Controller.Reconcile.{Reconciler, reconcile}
use codeflare_operator.Startup.Platform.{Platform, ConfigMap, CacheOptions}
use codeflare_operator.Startup.Text.{has_suffix, trim_space, is_space}
use codeflare_operator.Startup.Effect.{
  World, next, creates, rotates, checks_health, checks_readiness, spawns_ray, starts, ◌>>=◌, pure,
  ask, exit_on_error, pointee, note,
}
use codeflare_operator.Startup.Effect.Triple.{scan}
use codeflare_operator.Startup.Load.{getenv, namespace_or_die, load_into_or_create}
use codeflare_operator.Startup.Discovery.{
  app_wrapper_enabled, cache_by_object, is_openshift, get_cluster_domain,
}
use codeflare_operator.Startup.Main.{default_configuration, cert_rotator, main}
use codeflare_operator.Startup.Order.{fresh, has_domain, order}
use codeflare_operator.Startup.Order.Sound.{main-sound}
use codeflare_operator.Startup.Order.Served.{main-Concludes}
use codeflare_operator.Startup.Reload.{config_map_of, load_into_or_create-twice}
use codeflare_operator.Startup.Cached.{found_openshift}
use codeflare_operator.Tests.Data.{host}
use codeflare_operator.Tests.Reconciliations.{server, reconciler}

abbrev foreign : Foreign
foreign = record {
  Float32 = ℕ;
  float32 = λ n. n;
  default_qps = 5;
  Int32 = ℕ;
  int32 = λ n. n;
  default_burst = 10;
  AppWrapperConfig = Unit {0};
  new_app_wrapper_config = tt;
  Duration = ℕ;
  no_duration = 0;
}

-- The state is the ConfigMap, and a failure whether something was not found.
abbrev platform : Platform
platform = record {
  foreign = foreign;
  State = Option ConfigMap;
  Failure = Bool;
  Manager = Unit {0};
  Selector = String;
  is_not_found = λ e. e;
  get_kube_config = λ s. (ok (record { user_agent = ""; burst = 0; qps = 0 }), s);
  new_client = λ k. ok tt;
  read_file = λ path s. (ok " opendatahub\n", s);
  get_config_map = λ namespace name s. (elim s [ none ↦ err true | some m ↦ ok m ], s);
  create_config_map = λ m s. (ok tt, some m);
  marshal = λ cfg. ok "written";
  unmarshal = λ text cfg. ok cfg;
  server_groups = λ s. (ok ("apps" ∷ "route.openshift.io" ∷ []), s);
  parse_selector = λ text. ok text;
  new_manager = λ k options s. (ok tt, s);
  add_rotator = λ m r s. (ok tt, s);
  new_config_client = λ k. ok tt;
  get_ingress_domain = λ name s. (ok "apps.example.com", s);
  add_healthz_check = λ m name s. (ok tt, s);
  add_readyz_check = λ m name s. (ok tt, s);
  setup_indexers = λ m config s. (ok tt, s);
  start = λ m s. (ok tt, s);
}

abbrev empty : World (Option ConfigMap) (Unit {0})
empty = record { server = none; deeds = [] }

abbrev discovered : Option KubeRayConfiguration
discovered = some (record {
  ray_dashboard_oauth_enabled = some true;
  ingress_domain = "apps.example.com";
  mtls_enabled = some true;
})

abbrev config_name : String
config_name = "codeflare-operator-config"

main-deeds :
    (main platform host config_name empty).1.deeds
    ≡ creates (config_map_of "opendatahub" config_name "written")
      ∷ rotates (cert_rotator "opendatahub")
      ∷ checks_health "healthz"
      ∷ checks_readiness "readyz"
      ∷ spawns_ray discovered true
      ∷ starts
      ∷ []
unfolding main ◌>>=◌ ask exit_on_error namespace_or_die getenv trim_space is_space pure
    load_into_or_create note pointee default_configuration app_wrapper_enabled is_openshift
    get_cluster_domain has_suffix
main-deeds = refl

main-sound_example :
    (scan (order (Unit {0})) fresh (main platform host config_name empty).1.deeds).sound ≡ true
main-sound_example = main-sound platform host config_name empty refl

main-Concludes_example :
    (has_domain discovered ≡ true)
    × ((a : Api) (salt namespace name : String)
        → Concludes (
            reconcile a
              (record { host = host; cookie_salt = salt; config = discovered; is_openshift = true })
              namespace
              name))
main-Concludes_example =
    main-Concludes platform host config_name empty refl discovered true
      (rw main-deeds (Memᴰ.tail (Memᴰ.tail (Memᴰ.tail (Memᴰ.tail (Memᴰ.head refl))))))

load_into_or_create-twice_example :
    let first = load_into_or_create platform "n" "m" (default_configuration foreign) empty in
    let second = load_into_or_create platform "n" "m" (default_configuration foreign) first.1 in
    (first.0 ≡ next (ok (default_configuration foreign)))
    × (second.0 ≡ next (ok (default_configuration foreign)))
    × (first.1.deeds ≡ creates (config_map_of "n" "m" "written") ∷ [])
    × (second.1.deeds ≡ first.1.deeds)
load_into_or_create-twice_example =
    load_into_or_create-twice platform "n" "m" (default_configuration foreign) true "written" none
      (some (config_map_of "n" "m" "written")) (some (config_map_of "n" "m" "written")) empty refl
      refl refl refl refl refl

abbrev cache : CacheOptions String
cache = cache_by_object "ray.openshift.ai/cluster-name" (found_openshift platform empty)

abbrev reconciler_there : Reconciler
reconciler_there = record reconciler { is_openshift = found_openshift platform empty }
