-- ===== src/Controller/Authority.antt =====
-- The certificate authority of a cluster over two reconciliations: the CA secret of `Reconcile` of
-- pkg/controllers/raycluster_controller.go.
use codeflare_operator.Base.{◌≡◌, ℕ, String, Bool, true, false, ◌||◌, List, [], ◌∷◌, ◌++◌, ◌==◌}
use codeflare_operator.Kube.{RayCluster, ObjectMeta, secret}
use codeflare_operator.Naming.{controller_name, ca_secret_name_from_cluster}
use codeflare_operator.Controller.Api.{Api, SecretData, ok}
use codeflare_operator.Controller.Effect.{Call, World, Step, get_secret, apply}
use codeflare_operator.Controller.Desired.{desired_ca_secret}
use codeflare_operator.Controller.Reconcile.{Reconciler, apply_object, data_of}

abbrev has_key : String → SecretData → Bool
has_key k [] = false
has_key k ((j, v) ∷ m) = j == k || has_key k m

-- What Kubernetes documents of a forced apply: a secret that was applied is found, and every key
-- that was applied has the value that was applied; it may have other keys.
unfoldable pub KeepsData : Api → Type 0
KeepsData a =
    (meta : ObjectMeta) (bytes : SecretData) (s : a.State)
    → (a.apply controller_name true (secret meta bytes []) s).0 ≡ ok tt
    → (stored : SecretData) × ((a.get_secret meta.namespace meta.name
          (a.apply controller_name true (secret meta bytes []) s).1).0
        ≡ ok stored)
      × ((k : String) → has_key k bytes ≡ true → data_of k stored ≡ data_of k bytes)

module _ (a : Api) where
  module _ (r : Reconciler) where
    module _ (c : RayCluster) where
      -- The read of the CA secret.
      abbrev pub get_ca : Call
      get_ca = get_secret c.namespace (ca_secret_name_from_cluster r.host c)

      -- The run applies a CA secret after one read.
      record IsApplied (run : Step a.Failure (Unit {0}) × World a.State) (w : World a.State)
          : Type 0 where
        key : List ℕ
        cert : List ℕ
        before : World a.State
        run_eq : run ≡ apply_object a r (desired_ca_secret r.host c key cert) before
        logged : before.log ≡ w.log ++ get_ca ∷ []
