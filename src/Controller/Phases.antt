-- ===== src/Controller/Phases.antt =====
-- The finalizer and the CA secret (pkg/controllers/raycluster_controller.go): which calls are made,
-- in which order, on every answer of the server.
use codeflare_operator.Base.{
  ◌≡◌, refl, sym, ap, ◌∙◌, Bool, true, false, ◌&&◌, [], ◌∷◌, ◌++◌, Bool-cases, if◌then◌else◌, inl,
  inr,
}
use mathlib.Core.List.{append-nil, append_assoc}
use codeflare_operator.Kube.{RayCluster, Object, is_zero}
use codeflare_operator.Naming.{controller_name, crb_name_from_cluster, ca_secret_name_from_cluster}
use codeflare_operator.Controller.Api.{Api, Result, SecretData, ok, err, api, Result-cases}
use codeflare_operator.Controller.Effect.{
  M, World, Step, next, done, panicked, finished, continue, ◌>>=◌, pure, stop, call,
  update_ray_cluster, delete_cluster_role_binding, get_secret, apply, noted,
}
use codeflare_operator.Controller.Effect.Raises.{ended_well}
use codeflare_operator.Controller.Desired.{ca_private_key_key, ca_cert_key, desired_ca_secret}
use codeflare_operator.Controller.Reconcile.{
  Reconciler, oauth_finalizer, requeue, or_requeue, try_apply, apply_object, ignore_not_found,
  update, finalize, reconcile_finalizer, is_mtls_enabled, data_of, ca_secret_from, reconcile_ca,
  reconcile_objects, reconcile_cluster,
}

unfoldable pub is_ok : {F A : Type 0} → Result F A → Bool
is_ok (ok x) = true
is_ok (err e) = false

unfoldable pub is_next : {F A : Type 0} → Step F A → Bool
is_next (next x) = true
is_next (done o) = false
is_next panicked = false

-- What follows an action that does not go on is not done.
log-continue :
    {F S A B : Type 0} (x : Step F A) (f : A → M F S B) (v : World S)
    → is_next x ≡ false
    → ((continue x f v).1 ≡ v) × (ended_well (continue x f v).0 ≡ ended_well x)
unfolding is_next ended_well
log-continue (next x) f v stops = cc
log-continue (done o) f v stops = (refl, refl)
log-continue panicked f v stops = (refl, refl)

module _ (a : Api) (r : Reconciler) where
  -- The last update of a cluster.
  log-update :
      (d : RayCluster) (v : World a.State)
      → ((update a r d >>= λ _. stop {A = RayCluster} finished) v).1.log
        ≡ v.log ++ update_ray_cluster d ∷ []
  unfolding update or_requeue ◌>>=◌ call pure stop
  log-update d v = elim (Result-cases (a.update_ray_cluster d v.server).0) [
    | inl (u, e) ↦ rw e refl
    | inr (x, e) ↦ rw e refl
  ]

  ended_well-update :
      (d : RayCluster) (v : World a.State)
      → ended_well ((update a r d >>= λ _. stop {A = RayCluster} finished) v).0
        ≡ is_ok (a.update_ray_cluster d v.server).0
  unfolding update or_requeue ◌>>=◌ call pure stop ended_well is_ok
  ended_well-update d v = elim (Result-cases (a.update_ray_cluster d v.server).0) [
    | inl (u, e) ↦ rw e refl
    | inr (x, e) ↦ rw e refl
  ]

  pub log-apply_object :
      (o : Object) (v : World a.State)
      → (apply_object a r o v).1.log ≡ v.log ++ apply controller_name true o ∷ []
  unfolding apply_object try_apply or_requeue ◌>>=◌ call pure stop
  log-apply_object o v = elim (Result-cases (a.apply controller_name true o v.server).0) [
    | inl (u, e) ↦ rw e refl
    | inr (x, e) ↦ rw e refl
  ]

  is_next-update :
      (d : RayCluster) (v : World a.State)
      → is_next ((update a r d >>= λ _. stop {A = RayCluster} finished) v).0 ≡ false
  unfolding update or_requeue ◌>>=◌ call pure stop is_next
  is_next-update d v = elim (Result-cases (a.update_ray_cluster d v.server).0) [
    | inl (u, e) ↦ rw e refl
    | inr (x, e) ↦ rw e refl
  ]

  -- A ClusterRoleBinding that is deleted, or was not there.
  abbrev pub is_settled : Result a.Failure (Unit {0}) → Bool
  is_settled (ok _) = true
  is_settled (err e) = a.is_not_found e

  after_deletion :
      (x : Result a.Failure (Unit {0})) (d : RayCluster) (v : World a.State)
      → ((ignore_not_found a r x >>= λ _. update a r d >>= λ _. stop {A = RayCluster} finished)
          v).1.log
        ≡ v.log ++ (if is_settled x then update_ray_cluster d ∷ [] else [])
  unfolding ignore_not_found ◌>>=◌ pure stop
  after_deletion (ok u) d v = log-update d v
  after_deletion (err e) d v = elim (Bool-cases (a.is_not_found e)) [
    | inl found ↦ rw found (log-update d v)
    | inr other ↦ rw other (sym (append-nil v.log))
  ]

  after_deletion-ended_well :
      (x : Result a.Failure (Unit {0})) (d : RayCluster) (v : World a.State)
      → ended_well
          ((ignore_not_found a r x >>= λ _. update a r d >>= λ _. stop {A = RayCluster} finished)
            v).0
        ≡ (is_settled x && is_ok (a.update_ray_cluster d v.server).0)
  unfolding ignore_not_found ◌>>=◌ pure stop ended_well
  after_deletion-ended_well (ok u) d v = ended_well-update d v
  after_deletion-ended_well (err e) d v = elim (Bool-cases (a.is_not_found e)) [
    | inl found ↦ rw found (ended_well-update d v)
    | inr other ↦ rw other refl
  ]

  is_next-after_deletion :
      (x : Result a.Failure (Unit {0})) (d : RayCluster) (v : World a.State)
      → is_next
          ((ignore_not_found a r x >>= λ _. update a r d >>= λ _. stop {A = RayCluster} finished)
            v).0
        ≡ false
  unfolding ignore_not_found ◌>>=◌ pure stop is_next
  is_next-after_deletion (ok u) d v = is_next-update d v
  is_next-after_deletion (err e) d v = elim (Bool-cases (a.is_not_found e)) [
    | inl found ↦ rw found (is_next-update d v)
    | inr other ↦ rw other refl
  ]

module _ (a : Api) (r : Reconciler) (c : RayCluster) (w : World a.State) where
  -- What the server answers to the deletion of the cluster's ClusterRoleBinding, and then to the
  -- cluster's update without its finalizer.
  unfoldable pub deletion : Result a.Failure (Unit {0}) × a.State
  deletion = a.delete_cluster_role_binding (crb_name_from_cluster r.host c) "Foreground" w.server

  unfoldable pub without_finalizer : Result a.Failure RayCluster × a.State
  unfolding deletion
  without_finalizer = a.update_ray_cluster (a.remove_finalizer c oauth_finalizer) deletion.1

  finalize_lem :
      ((finalize a r c w).1.log
        ≡ w.log
          ++ delete_cluster_role_binding (crb_name_from_cluster r.host c) "Foreground"
            ∷ (if is_settled a r deletion.0
                then update_ray_cluster (a.remove_finalizer c oauth_finalizer) ∷ []
                else []))
      × (ended_well (finalize a r c w).0 ≡ (is_settled a r deletion.0 && is_ok without_finalizer.0))
  unfolding finalize ◌>>=◌ call deletion without_finalizer
  finalize_lem =
      let v : World a.State = record {
        server = deletion.1;
        log =
            w.log ++ delete_cluster_role_binding (crb_name_from_cluster r.host c) "Foreground" ∷ [];
        accepted =
            noted deletion.0
              (delete_cluster_role_binding (crb_name_from_cluster r.host c) "Foreground")
              w.accepted;
      } in
      let d = a.remove_finalizer c oauth_finalizer in
      (
        after_deletion a r deletion.0 d v ∙ append_assoc w.log _ _,
        after_deletion-ended_well a r deletion.0 d v,
      )

  is_next-finalize : is_next (finalize a r c w).0 ≡ false
  unfolding finalize ◌>>=◌ call
  is_next-finalize = is_next-after_deletion a r _ (a.remove_finalizer c oauth_finalizer) _

  -- A cluster that is being deleted and has the finalizer: its ClusterRoleBinding is deleted, then
  -- the finalizer is removed if the binding was deleted or was not there, and no other call is made.
  -- The reconciliation ends without an error exactly if that and the update succeeded.
  pub reconcile_cluster-deleted :
      is_zero c.deletion_timestamp ≡ false
      → a.contains_finalizer c oauth_finalizer ≡ true
      → ((reconcile_cluster a r c w).1.log
          ≡ w.log
            ++ delete_cluster_role_binding (crb_name_from_cluster r.host c) "Foreground"
              ∷ (if is_settled a r deletion.0
                  then update_ray_cluster (a.remove_finalizer c oauth_finalizer) ∷ []
                  else []))
        × (ended_well (reconcile_cluster a r c w).0
            ≡ (is_settled a r deletion.0 && is_ok without_finalizer.0))
  unfolding reconcile_cluster reconcile_finalizer ◌>>=◌
  reconcile_cluster-deleted deleting has =
      let (log_eq, ended_eq) = finalize_lem in
      let (same, ended_same) =
        log-continue (finalize a r c w).0 (reconcile_objects a r) (finalize a r c w).1
          is_next-finalize in
      rw (deleting, has) (ap (λ (v : World a.State). v.log) same ∙ log_eq, ended_same ∙ ended_eq)

module _ (a : Api) (r : Reconciler) (c : RayCluster) (w : World a.State)
    (mtls : is_mtls_enabled r.config ≡ true) where
  -- With mTLS on, a CA secret that is there is applied again with the private key and the
  -- certificate that it has.
  pub reconcile_ca-kept :
      (secret_data : SecretData)
      → (a.get_secret c.namespace (ca_secret_name_from_cluster r.host c) w.server).0
        ≡ ok secret_data
      → (reconcile_ca a r c w).1.log
        ≡ w.log
          ++ get_secret c.namespace (ca_secret_name_from_cluster r.host c)
            ∷ apply controller_name true (
                desired_ca_secret r.host c
                  (data_of ca_private_key_key secret_data)
                  (data_of ca_cert_key secret_data))
            ∷ []
  unfolding reconcile_ca ca_secret_from ◌>>=◌ call
  reconcile_ca-kept secret_data found =
      rw (mtls, found) (log-apply_object a r _ _ ∙ append_assoc w.log _ _)

  -- With mTLS on, if the CA secret cannot be read, and not because it is not there, nothing is
  -- applied and the reconciliation ends with the error.
  pub reconcile_ca-failed :
      (e : a.Failure)
      → (a.get_secret c.namespace (ca_secret_name_from_cluster r.host c) w.server).0 ≡ err e
      → a.is_not_found e ≡ false
      → ((reconcile_ca a r c w).0 ≡ done (requeue a (api e)))
        × ((reconcile_ca a r c w).1.log
            ≡ w.log ++ get_secret c.namespace (ca_secret_name_from_cluster r.host c) ∷ [])
  unfolding reconcile_ca ca_secret_from ◌>>=◌ call stop
  reconcile_ca-failed e failed other = rw (mtls, failed, other) (refl, refl)
