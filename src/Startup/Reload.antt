-- ===== src/Startup/Reload.antt =====
-- What `loadIntoOrCreate` of main.go creates, it loads again.
use codeflare_operator.Base.{◌≡◌, refl, ap, ◌∙◌, String, true, [], ◌∷◌, ◌++◌}
use codeflare_operator.Controller.Api.{ok, err}
use codeflare_operator.Startup.Platform.{Platform, ConfigMap}
use codeflare_operator.Startup.Effect.{World, next, lift, ◌>>=◌, pure, ask, note, creates}
use codeflare_operator.Startup.Load.{
  Configuration, create_with, create_config_map, load_entries, load_from, load_into_or_create,
}

-- The ConfigMap of a configuration that was written as `text`.
abbrev pub config_map_of : (namespace name text : String) → ConfigMap
config_map_of namespace name text = record {
  namespace = namespace;
  name = name;
  content = ("config.yaml", text) ∷ [];
}

module _ (p : Platform) (namespace name : String) (cfg : Configuration p) where
  create_with-ok :
      (text : String) (s : p.State) (w : World p.State p.foreign.AppWrapperConfig)
      → p.create_config_map (config_map_of namespace name text) w.server ≡ (ok tt, s)
      → create_with p namespace name cfg (ok text) w ≡ (
        next (ok cfg),
        record w {
          server = s;
          deeds = w.deeds ++ creates (config_map_of namespace name text) ∷ [];
        },
      )
  unfolding create_with ◌>>=◌ note ask pure
  create_with-ok text s w e = rw e refl

  load-of_missing :
      (e : p.Failure) (text : String) (s t : p.State) (w : World p.State p.foreign.AppWrapperConfig)
      → p.get_config_map namespace name w.server ≡ (err e, s)
      → p.is_not_found e ≡ true
      → p.marshal cfg ≡ ok text
      → p.create_config_map (config_map_of namespace name text) s ≡ (ok tt, t)
      → load_into_or_create p namespace name cfg w ≡ (
        next (ok cfg),
        record w {
          server = t;
          deeds = w.deeds ++ creates (config_map_of namespace name text) ∷ [];
        },
      )
  unfolding load_into_or_create ◌>>=◌ ask load_from create_config_map
  load-of_missing e text s t w get missing written created =
      rw (get, missing, written) (create_with-ok text t (record w { server = s }) created)

  load-of_found :
      (text : String) (s : p.State) (w : World p.State p.foreign.AppWrapperConfig)
      → p.get_config_map namespace name w.server ≡ (ok (config_map_of namespace name text), s)
      → load_into_or_create p namespace name cfg w
        ≡ (next (lift (p.unmarshal text cfg)), record w { server = s })
  unfolding load_into_or_create ◌>>=◌ ask pure load_from load_entries
  load-of_found text s w get = rw get refl

  -- If the ConfigMap is missing, the configuration can be written and the ConfigMap created, then
  -- `loadIntoOrCreate` keeps the configuration and creates that one ConfigMap; and if the API server
  -- then answers with the ConfigMap that was created, and reading what was written gives the
  -- configuration again, a second `loadIntoOrCreate` gives the same configuration and creates nothing.
  pub load_into_or_create-twice :
      (e : p.Failure) (text : String) (s t u : p.State)
      (w : World p.State p.foreign.AppWrapperConfig)
      → p.get_config_map namespace name w.server ≡ (err e, s)
      → p.is_not_found e ≡ true
      → p.marshal cfg ≡ ok text
      → p.create_config_map (config_map_of namespace name text) s ≡ (ok tt, t)
      → p.get_config_map namespace name t ≡ (ok (config_map_of namespace name text), u)
      → p.unmarshal text cfg ≡ ok cfg
      → let first = load_into_or_create p namespace name cfg w in
        let second = load_into_or_create p namespace name cfg first.1 in
        (first.0 ≡ next (ok cfg))
        × (second.0 ≡ next (ok cfg))
        × (first.1.deeds ≡ w.deeds ++ creates (config_map_of namespace name text) ∷ [])
        × (second.1.deeds ≡ first.1.deeds)
  load_into_or_create-twice e text s t u w get missing written created stored read =
      rw (load-of_missing e text s t w get missing written created) (
        let second = load-of_found text u _ stored in
        (
          refl,
          ap (λ x. x.0) second ∙ ap (λ r. next (lift r)) read,
          refl,
          ap (λ x. x.1.deeds) second,
        ))
