-- ===== src/Controller/Missing.antt =====
-- `deleteHeadPodIfMissingImagePullSecrets` (pkg/controllers/raycluster_controller.go): when the head
-- pod is deleted.
use codeflare_operator.Base.{
  ◌≡◌, refl, ap, ◌∙◌, not, ◌&&◌, ◌||◌, String, List, [], ◌∷◌, ◌++◌, ◌==◌, arith, eq_iff,
}
use codeflare_operator.Base.Lists.{member, remove}
use codeflare_operator.Kube.{Pod, ServiceAccount}
use codeflare_operator.Controller.Secrets.{add_keys, delete_keys, missing_secrets}

member-append :
    (x : String) (xs ys : List String) → member x (xs ++ ys) ≡ (member x xs || member x ys)
member-append x [] ys = refl
member-append x (y ∷ xs) ys = ground (arith, member-append x xs ys)

member-remove :
    (x s : String) (xs : List String) → member x (remove s xs) ≡ (member x xs && not (s == x))
member-remove x s [] = refl
member-remove x s (y ∷ xs) =
    ground (arith, member-remove x s xs, eq_iff y x, eq_iff y s, eq_iff s x)

member-add_keys :
    (x : String) (ss m : List String) → member x (add_keys ss m) ≡ (member x ss || member x m)
unfolding add_keys
member-add_keys x [] m = refl
member-add_keys x (s ∷ ss) m = ground (
  arith,
  member-add_keys x ss m,
  member-add_keys x ss (m ++ s ∷ []),
  member-append x m (s ∷ []),
  eq_iff s x,
)

member-delete_keys :
    (x : String) (ss m : List String)
    → member x (delete_keys ss m) ≡ (member x m && not (member x ss))
unfolding delete_keys
member-delete_keys x [] m = ground arith
member-delete_keys x (s ∷ ss) m =
    ground (arith, member-delete_keys x ss (remove s m), member-remove x s m)

-- The secrets that are missing are those of the service account that the pod does not name.
pub member-missing_secrets :
    (x : String) (account : ServiceAccount) (pod : Pod)
    → member x (missing_secrets account pod)
      ≡ (member x account.image_pull_secrets && not (member x pod.spec.image_pull_secrets))
unfolding missing_secrets
member-missing_secrets x account pod =
    member-delete_keys x pod.spec.image_pull_secrets (add_keys account.image_pull_secrets [])
    ∙ ap (λ b. b && not (member x pod.spec.image_pull_secrets))
        (member-add_keys x account.image_pull_secrets [] ∙ ground arith)
