-- ===== src/Webhook/Total.antt =====
-- When `Default` returns, and when it panics.
use codeflare_operator.Base.{
  ◌≡◌, inl, inr, refl, ap, ◌∙◌, sym, true, false, not, ◌&&◌, ◌||◌, List, [], ◌∷◌, arith, none, some,
  Option, Bool, if◌then◌else◌, Option-cases,
}
use codeflare_operator.Base.Lists.{List-cases, is_empty}
use codeflare_operator.Base.Run.{Run, returns, panics, ◌>>=◌}
use codeflare_operator.Host.{Host}
use codeflare_operator.Config.{KubeRayConfiguration, oauth_on, mtls_on}
use codeflare_operator.Kube.{RayCluster, WorkerGroupSpec, PodSpec, Container, head_pod, worker_pod}
use codeflare_operator.Support.{upsert, Compare}
use codeflare_operator.Webhook.Default.{
  RayClusterWebhook, set_version, add_mtls, secure_head, secure_worker, secure_workers, default,
}
use codeflare_operator.Webhook.Loops.{
  secure_head-cons, secure_head-nil, secure_worker-cons, secure_worker-nil,
}
use codeflare_operator.Webhook.Mutation.{front_pod, front, finish, default-eq, default-nil}

abbrev pub runs {ℓ} : {A : Type ℓ} → Run A → Bool
runs (returns _) = true
runs panics = false

-- Every worker group's pod has a container.
abbrev pub all_filled : List WorkerGroupSpec → Bool
all_filled [] = true
all_filled (w ∷ ws) = not (is_empty (worker_pod w).containers) && all_filled ws

-- There is a configuration, and if it has mTLS on, every pod has a container to put the
-- certificate variables into; the OAuth proxy is one.
abbrev pub runnable : Option KubeRayConfiguration → RayCluster → Bool
runnable none c = false
runnable (some cfg) c =
    not (mtls_on cfg)
    || ((oauth_on cfg || not (is_empty (head_pod c).containers))
        && all_filled c.spec.worker_group_specs)

is_empty-upsert :
    (items : List Container) (item : Container) (p : Compare Container)
    → is_empty (upsert items item p) ≡ false
unfolding upsert
is_empty-upsert [] item p = refl
is_empty-upsert (t ∷ items) item p = ground arith

module _ (h : Host) (cfg : KubeRayConfiguration) (c : RayCluster) where
  runs-secure_head :
      (pod : PodSpec) → runs (secure_head h cfg c pod) ≡ not (is_empty pod.containers)
  runs-secure_head pod = elim (List-cases pod.containers) [
    | inl nil ↦ ap runs (secure_head-nil h cfg c pod nil) ∙ ap (λ xs. not (is_empty xs)) (sym nil)
    | inr (ct, rest, q) ↦
        ap runs (secure_head-cons h cfg c ct rest pod q) ∙ ap (λ xs. not (is_empty xs)) (sym q)
  ]

  runs-secure_worker :
      (pod : PodSpec) → runs (secure_worker h cfg c pod) ≡ not (is_empty pod.containers)
  runs-secure_worker pod = elim (List-cases pod.containers) [
    | inl nil ↦ ap runs (secure_worker-nil h cfg c pod nil) ∙ ap (λ xs. not (is_empty xs)) (sym nil)
    | inr (ct, rest, q) ↦
        ap runs (secure_worker-cons h cfg c ct rest pod q) ∙ ap (λ xs. not (is_empty xs)) (sym q)
  ]

-- A run in two parts returns if both parts do.
runs-both {ℓ κ μ} :
    {A : Type ℓ} {B : Type κ} {C : Type μ} (m : Run A) (n : Run B) (f : A → B → C)
    → runs (m >>= λ a. n >>= λ b. returns (f a b)) ≡ (runs m && runs n)
runs-both (returns a) (returns b) f = refl
runs-both (returns a) panics f = refl
runs-both panics n f = refl

module _ (h : Host) (cfg : KubeRayConfiguration) (c : RayCluster) where
  runs-secure_workers :
      (ws : List WorkerGroupSpec) → runs (secure_workers h cfg c ws) ≡ all_filled ws
  unfolding secure_workers
  runs-secure_workers [] = refl
  runs-secure_workers (w ∷ ws) =
      runs-both (secure_worker h cfg c (worker_pod w)) (secure_workers h cfg c ws) _
      ∙ ap (λ b. b && runs (secure_workers h cfg c ws)) (runs-secure_worker h cfg c (worker_pod w))
      ∙ ap (λ b. not (is_empty (worker_pod w).containers) && b) (runs-secure_workers ws)

  runs-add_mtls :
      runs (add_mtls h cfg c)
      ≡ (not (is_empty (head_pod c).containers) && all_filled c.spec.worker_group_specs)
  unfolding add_mtls
  runs-add_mtls =
      runs-both (secure_head h cfg c (head_pod c))
        (secure_workers h cfg c c.spec.worker_group_specs) _
      ∙ ap (λ b. b && runs (secure_workers h cfg c c.spec.worker_group_specs))
          (runs-secure_head h cfg c (head_pod c))
      ∙ ap (λ b. not (is_empty (head_pod c).containers) && b)
          (runs-secure_workers c.spec.worker_group_specs)

module _ (h : Host) where
  front-filled :
      (oauth : Bool) (c : RayCluster)
      → not (is_empty (front_pod h oauth c).containers)
        ≡ (oauth || not (is_empty (head_pod c).containers))
  front-filled true c = ap not (is_empty-upsert (head_pod c).containers _ _)
  front-filled false c = refl

  runs-if :
      (mtls : Bool) (cfg : KubeRayConfiguration) (g : RayCluster)
      → runs (if mtls then add_mtls h cfg g else returns g) ≡ (not mtls || runs (add_mtls h cfg g))
  runs-if true cfg g = refl
  runs-if false cfg g = refl

  runs-finish :
      (cfg : KubeRayConfiguration) (c : RayCluster)
      → runs (finish h cfg (front h (oauth_on cfg) c)) ≡ (
          not (mtls_on cfg)
          || ((oauth_on cfg || not (is_empty (head_pod c).containers))
              && all_filled c.spec.worker_group_specs))
  runs-finish cfg c =
      runs-if (mtls_on cfg) cfg (front h (oauth_on cfg) c)
      ∙ ap (λ b. not (mtls_on cfg) || b) (runs-add_mtls h cfg (front h (oauth_on cfg) c))
      ∙ ap (λ b. not (mtls_on cfg) || (b && all_filled c.spec.worker_group_specs))
          (front-filled (oauth_on cfg) c)

  -- `Default` returns a cluster exactly if there is a configuration and, with mTLS on, every worker
  -- pod has a container and the head pod has one or OAuth is on. Otherwise it panics.
  pub runs-default :
      (w : RayClusterWebhook) (c : RayCluster) → runs (default h w c) ≡ runnable w.config c
  unfolding set_version
  runs-default w c = elim (Option-cases w.config) [
    | inl nil ↦ ap runs (default-nil h w c nil) ∙ ap (λ o. runnable o c) (sym nil)
    | inr (cfg, conf) ↦
        ap runs (default-eq h w c cfg conf)
        ∙ runs-finish cfg (set_version w c)
        ∙ ap (λ o. runnable o c) (sym conf)
  ]
