-- ===== src/Startup/Order/Served.antt =====
-- What main.go hands to the RayCluster controller (pkg/controllers/raycluster_controller.go) is a
-- configuration under which `Reconcile` does not panic.
use codeflare_operator.Base.{
  ◌≡◌, refl, ap, ◌∙◌, Bool, true, false, ◌&&◌, Option, none, some, String, ◌==◌, List, [], ◌∷◌,
  arith,
}
use mathlib.Core.List.{Memᴰ}
use codeflare_operator.Host.{Host}
use codeflare_operator.Config.{KubeRayConfiguration}
use codeflare_operator.Controller.Api.{Api}
use codeflare_operator.Controller.Effect.Ends.{Concludes}
use codeflare_operator.Controller.Endings.{reconcile-Concludes}
use codeflare_operator.Controller.Reconcile.{reconcile}
use codeflare_operator.Startup.Platform.{Platform}
use codeflare_operator.Startup.Effect.{
  Deed, World, creates, rotates, checks_health, checks_readiness, spawns_ray, spawns_app_wrapper,
  starts,
}
use codeflare_operator.Startup.Effect.Triple.{scan}
use codeflare_operator.Startup.Main.{main}
use codeflare_operator.Startup.Order.{Progress, has_domain, advance, fresh, order}
use codeflare_operator.Startup.Order.Sound.{main-sound}

and_last : (a b : Bool) → (a && b) ≡ true → b ≡ true
and_last true b h = h
and_last false b h = absurd (cc h)

module _ {C : Type 0} where
  advance-sound : (s : Progress) (d : Deed C) → (advance s d).sound ≡ true → s.sound ≡ true
  advance-sound s (creates m) h = grind arith
  advance-sound s (rotates r) h = h
  advance-sound s (checks_health name) h = h
  advance-sound s (checks_readiness name) h = h
  advance-sound s (spawns_ray k openshift) h = grind arith
  advance-sound s (spawns_app_wrapper c) h = grind arith
  advance-sound s starts h = grind arith

  scan-sound :
      (s : Progress) (ds : List (Deed C)) → (scan (order C) s ds).sound ≡ true → s.sound ≡ true
  scan-sound s [] h = h
  scan-sound s (d ∷ ds) h = advance-sound s d (scan-sound (advance s d) ds h)

  spawn-has_domain :
      (s : Progress) (d : Deed C) (k : Option KubeRayConfiguration) (openshift : Bool)
      → spawns_ray k openshift ≡ d
      → (advance s d).sound ≡ true
      → has_domain k ≡ true
  spawn-has_domain s d k openshift e h =
      and_last _ (has_domain k) (ap (λ x. (advance s x).sound) e ∙ h)

  spawns-has_domain :
      (s : Progress) (ds : List (Deed C)) (k : Option KubeRayConfiguration) (openshift : Bool)
      → (scan (order C) s ds).sound ≡ true
      → Memᴰ (spawns_ray k openshift) ds
      → has_domain k ≡ true
  spawns-has_domain s [] k openshift h m = elim m [ ]
  spawns-has_domain s (d ∷ ds) k openshift h (Memᴰ.head e) =
      spawn-has_domain s d k openshift e (scan-sound (advance s d) ds h)
  spawns-has_domain s (d ∷ ds) k openshift h (Memᴰ.tail m) =
      spawns-has_domain (advance s d) ds k openshift h m

has_domain-some :
    (k : Option KubeRayConfiguration)
    → has_domain k ≡ true
    → (cfg : KubeRayConfiguration) × (k ≡ some cfg) × ((cfg.ingress_domain == "") ≡ false)
has_domain-some none h = absurd (cc h)
has_domain-some (some cfg) h = (cfg, refl, grind arith)

module _ (p : Platform) where
  -- Whatever happens during the start-up, a RayCluster task that `main` spawned has a configuration
  -- with an ingress domain, and every reconciliation of a controller with this configuration, on any
  -- API server, comes to an end: it does not panic, and returns either an error, or no error and no
  -- time to come back.
  pub main-Concludes :
      (h : Host) (config_map_name : String) (w : World p.State p.foreign.AppWrapperConfig)
      → w.deeds ≡ []
      → (k : Option KubeRayConfiguration) (openshift : Bool)
      → Memᴰ (spawns_ray k openshift) (main p h config_map_name w).1.deeds
      → (has_domain k ≡ true)
        × ((a : Api) (salt namespace name : String)
            → Concludes (
                reconcile a
                  (record { host = h; cookie_salt = salt; config = k; is_openshift = openshift })
                  namespace
                  name))
  main-Concludes h config_map_name w none_yet k openshift m =
      let domain =
        spawns-has_domain fresh _ k openshift (main-sound p h config_map_name w none_yet) m in
      let (cfg, is_some, _) = has_domain-some k domain in
      (domain, λ a salt namespace name. reconcile-Concludes a _ cfg is_some namespace name)
