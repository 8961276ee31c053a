-- ===== src/Startup/Order/Sound.antt =====
-- `main` keeps the order, however it ends.
use codeflare_operator.Base.{◌≡◌, refl, true, String, []}
use codeflare_operator.Host.{Host}
use codeflare_operator.Controller.Api.{Result, ok, err}
use codeflare_operator.Startup.Platform.{Platform, KubeConfig}
use codeflare_operator.Startup.Effect.{World, lift, starts, note}
use codeflare_operator.Startup.Effect.Triple.{scan, Triple-given, Triple-exit_of, Triple-bind}
use codeflare_operator.Startup.Load.{Configuration}
use codeflare_operator.Startup.Main.{spawn_tasks, setup_app_wrapper_components, set_up, main}
use codeflare_operator.Startup.Order.{
  Progress, has_domain, fresh, rotated, probed, spawned, order, Is, Moves, Moves-pure, Moves-ask,
  Moves-pointee, Moves-if, Moves-note, Moves-bind, moves_rules, Moves-spawn,
}
use codeflare_operator.Startup.Order.Build.{
  Moves-configure, Moves-is_openshift, Moves-build_manager,
}
use codeflare_operator.Startup.Order.Domain.{
  Probed, with_domain-Configured, setup_probe_endpoints-Probed,
}

module _ (p : Platform) where
  Moves-setup_app_wrapper_components :
      (m : p.Manager) (cfg : Configuration p)
      → Moves spawned spawned (setup_app_wrapper_components p m cfg)
  unfolding setup_app_wrapper_components
  Moves-setup_app_wrapper_components m cfg =
      Moves-if _ _ _
        (Moves-bind _ _ (Moves-pointee _) (λ app_wrapper.
          Moves-bind (note _) _ (Moves-note {s = spawned} _ refl) (λ _. Moves-ask _)))
        (Moves-pure _)

  Moves-spawn_tasks :
      (m : p.Manager) (cfg : Configuration p)
      → has_domain cfg.kube_ray ≡ true
      → Moves probed spawned (spawn_tasks p m cfg)
  unfolding spawn_tasks
  Moves-spawn_tasks m cfg domain = Moves-bind _ _ (Moves-is_openshift p probed) (λ openshift.
      Moves-bind (note _) _ (Moves-spawn cfg.kube_ray openshift domain)
        (λ _. search (moves_rules, Moves-setup_app_wrapper_components)))

  ok-Probed :
      (r : Result p.Failure (Unit {0})) (x : Unit {0}) (t : Progress)
      → lift r ≡ ok x
      → Probed p r t
      → t ≡ probed
  ok-Probed (ok _) x t e i = i
  ok-Probed (err f) x t e i = cc

  Moves-set_up :
      (m : p.Manager) (k : KubeConfig p.foreign) (cfg : Configuration p)
      → Moves rotated spawned (set_up p m k cfg)
  unfolding set_up
  Moves-set_up m k cfg = record {
    triple = Triple-bind _ fresh _ _ _ (with_domain-Configured p k cfg) (λ cfg'.
        Triple-given _ fresh _ _ _ (λ domain.
          Triple-bind _ fresh _ _ _ (setup_probe_endpoints-Probed p m cfg') (λ r.
            Triple-bind _ fresh _ _ _
              (Triple-exit_of _ fresh (lift r) _ (λ _. Is probed) (ok-Probed r))
              (λ _. (Moves-spawn_tasks m cfg' domain).triple))));
  }

  Moves-main : (h : Host) (name : String) → Moves fresh spawned (main p h name)
  unfolding main
  Moves-main h name = Moves-bind _ _ (Moves-configure p h name) (λ configured.
      Moves-bind _ _ (Moves-build_manager p configured.0 configured.1 configured.2) (λ m.
        Moves-bind _ _ (Moves-set_up m configured.1 configured.2) (λ _.
          Moves-bind (note _) _ (Moves-note {s = spawned} starts refl) (λ _. search moves_rules))))

  -- However `main` ends, it set things up in this order: a ConfigMap is created only before the
  -- certificates are set up; the RayCluster task is spawned only after the certificates, the health
  -- check and the readiness check, and with a configuration that has an ingress domain; AppWrapper's
  -- task only after the certificates and the readiness check; and the manager is started only after
  -- the RayCluster task is spawned.
  pub main-sound :
      (h : Host) (name : String) (w : World p.State p.foreign.AppWrapperConfig)
      → w.deeds ≡ []
      → (scan (order _) fresh (main p h name w).1.deeds).sound ≡ true
  main-sound h name w none_yet =
      (Moves-main h name).triple.keeps w (rw none_yet refl) (rw none_yet refl)
