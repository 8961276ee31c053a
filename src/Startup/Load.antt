-- ===== src/Startup/Load.antt =====
-- `namespaceOrDie`, `loadIntoOrCreate` and `createConfigMap` of main.go.
use codeflare_operator.Base.{String, ◌<>◌, [], ◌∷◌, ◌==◌, if◌then◌else◌, deref}
use codeflare_operator.Base.StringMap.{StringMap}
use codeflare_operator.Host.{Host}
use codeflare_operator.Config.Manager.{CodeFlareOperatorConfiguration}
use codeflare_operator.Controller.Api.{Error, Result, ok, err, api, message}
use codeflare_operator.Startup.Text.{trim_space}
use codeflare_operator.Startup.Platform.{Platform, ConfigMap}
use codeflare_operator.Startup.Effect.{Act, lift, ◌>>=◌, ◌>>◌, pure, panic, ask, note, creates}

abbrev pub namespace_path : String
namespace_path = "/var/run/secrets/kubernetes.io/serviceaccount/namespace"

-- `os.Getenv`: empty if it is not set.
unfoldable pub getenv : Host → String → String
getenv h key = deref (h.lookup_env key) ""

module _ (p : Platform) where
  abbrev pub Configuration : Type 0
  Configuration = CodeFlareOperatorConfiguration p.foreign

  unfoldable pub namespace_from : Result p.Failure String → Act p String
  namespace_from (err e) = panic
  namespace_from (ok text) =
      let namespace = trim_space text in if namespace == "" then panic else pure namespace

  -- `namespaceOrDie`
  unfoldable pub namespace_or_die : Host → Act p String
  unfolding namespace_from
  namespace_or_die h =
      if getenv h "NAMESPACE" == ""
      then (do content ← ask (p.read_file namespace_path); namespace_from content)
      else pure (getenv h "NAMESPACE")

  unfoldable pub create_with :
      String
      → String
      → Configuration
      → Result p.Failure String
      → Act p (Result (Error p.Failure) Configuration)
  create_with namespace name cfg (err e) = pure (err (api e))
  create_with namespace name cfg (ok content) = do
    let config_map : ConfigMap = record {
      namespace = namespace;
      name = name;
      content = ("config.yaml", content) ∷ [];
    }
    note (creates config_map)
    created ← ask (p.create_config_map config_map)
    pure (elim created [ ok _ ↦ ok cfg | err e ↦ err (api e) ])

  -- `createConfigMap`: the configuration itself stays as it is.
  unfoldable pub create_config_map :
      String → String → Configuration → Act p (Result (Error p.Failure) Configuration)
  unfolding create_with
  create_config_map namespace name cfg = create_with namespace name cfg (p.marshal cfg)

  -- The one entry of a ConfigMap, read into the configuration.
  unfoldable pub load_entries :
      ConfigMap → StringMap → Configuration → Result (Error p.Failure) Configuration
  load_entries m ((key, text) ∷ []) cfg = lift (p.unmarshal text cfg)
  load_entries m entries cfg =
      err (message ("cannot resolve config from ConfigMap " <> m.namespace <> "/" <> m.name))

  unfoldable pub load_from :
      String
      → String
      → Configuration
      → Result p.Failure ConfigMap
      → Act p (Result (Error p.Failure) Configuration)
  unfolding create_config_map load_entries
  load_from namespace name cfg (ok m) = pure (load_entries m m.content cfg)
  load_from namespace name cfg (err e) =
      if p.is_not_found e then create_config_map namespace name cfg else pure (err (api e))

  -- `loadIntoOrCreate`: the configuration that it leaves behind, or an error.
  unfoldable pub load_into_or_create :
      String → String → Configuration → Act p (Result (Error p.Failure) Configuration)
  unfolding load_from
  load_into_or_create namespace name cfg = do
    found ← ask (p.get_config_map namespace name)
    load_from namespace name cfg found
