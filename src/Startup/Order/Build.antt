-- ===== src/Startup/Order/Build.antt =====
-- The progress along `configure` and `build_manager` of main.go.
use codeflare_operator.Base.{refl, String}
use codeflare_operator.Host.{Host}
use codeflare_operator.Controller.Api.{Result, ok, err}
use codeflare_operator.Startup.Platform.{Platform, KubeConfig, ConfigMap}
use codeflare_operator.Startup.Effect.{note}
use codeflare_operator.Startup.Effect.Triple.{}
use codeflare_operator.Startup.Load.{
  Configuration, namespace_or_die, namespace_from, load_into_or_create, load_from, create_with,
  create_config_map,
}
use codeflare_operator.Startup.Discovery.{is_openshift}
use codeflare_operator.Startup.Main.{
  with_certificates, limited, cache_options, manager_options, setup_cert_management, configure,
  build_manager,
}
use codeflare_operator.Startup.Order.{
  Progress, fresh, rotated, Moves, Moves-pure, Moves-panic, Moves-ask, Moves-note, Moves-bind,
  moves_rules,
}

module _ (p : Platform) where
  pub Moves-namespace_from : (r : Result p.Failure String) → Moves fresh fresh (namespace_from p r)
  unfolding namespace_from
  Moves-namespace_from (err e) = Moves-panic
  Moves-namespace_from (ok text) = search moves_rules

  pub Moves-namespace_or_die : (h : Host) → Moves fresh fresh (namespace_or_die p h)
  unfolding namespace_or_die
  Moves-namespace_or_die h = search (moves_rules, Moves-namespace_from)

  pub Moves-create_with :
      (namespace name : String) (cfg : Configuration p) (r : Result p.Failure String)
      → Moves fresh fresh (create_with p namespace name cfg r)
  unfolding create_with
  Moves-create_with namespace name cfg (err e) = Moves-pure _
  Moves-create_with namespace name cfg (ok content) =
      Moves-bind (note _) _ (Moves-note _ refl) (λ _. search moves_rules)

  pub Moves-load_from :
      (namespace name : String) (cfg : Configuration p) (r : Result p.Failure ConfigMap)
      → Moves fresh fresh (load_from p namespace name cfg r)
  unfolding load_from create_config_map
  Moves-load_from namespace name cfg (ok m) = Moves-pure _
  Moves-load_from namespace name cfg (err e) = search (moves_rules, Moves-create_with)

  pub Moves-load_into_or_create :
      (namespace name : String) (cfg : Configuration p)
      → Moves fresh fresh (load_into_or_create p namespace name cfg)
  unfolding load_into_or_create
  Moves-load_into_or_create namespace name cfg = search (moves_rules, Moves-load_from)

  pub Moves-configure : (h : Host) (name : String) → Moves fresh fresh (configure p h name)
  unfolding configure limited
  Moves-configure h name =
      search (moves_rules, Moves-namespace_or_die, Moves-load_into_or_create) depth 14

  pub Moves-is_openshift : (s : Progress) → Moves s s (is_openshift p)
  unfolding is_openshift
  Moves-is_openshift s = search moves_rules

  pub Moves-cache_options : (cfg : Configuration p) → Moves fresh fresh (cache_options p cfg)
  unfolding cache_options
  Moves-cache_options cfg = search (moves_rules, Moves-is_openshift)

  pub Moves-setup_cert_management :
      (m : p.Manager) (namespace : String)
      → Moves fresh rotated (setup_cert_management p m namespace)
  unfolding setup_cert_management
  Moves-setup_cert_management m namespace =
      Moves-bind (note _) _ (Moves-note _ refl) (λ _. Moves-ask _)

  pub Moves-with_certificates :
      (namespace : String) (m : p.Manager) → Moves fresh rotated (with_certificates p namespace m)
  unfolding with_certificates
  Moves-with_certificates namespace m =
      Moves-bind _ _ (Moves-setup_cert_management m namespace) (λ r. search moves_rules)

  pub Moves-build_manager :
      (namespace : String) (k : KubeConfig p.foreign) (cfg : Configuration p)
      → Moves fresh rotated (build_manager p namespace k cfg)
  unfolding build_manager manager_options
  Moves-build_manager namespace k cfg =
      search (moves_rules, Moves-cache_options, Moves-with_certificates) depth 14
