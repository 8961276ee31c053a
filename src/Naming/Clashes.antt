-- ===== src/Naming/Clashes.antt =====
-- Clusters whose objects share a name.
use text.Mathlib.TextLemmas.{append_assoc, length-append}
use Prim.Native.String.{count}
use codeflare_operator.Base.{
  String, ◌<>◌, ◌≡◌, ◌≢◌, sym, ap, ◌∙◌, true, false, arith, if◌then◌else◌,
}
use codeflare_operator.Host.{Host, IsSha256}
use codeflare_operator.Kube.{RayCluster}
use codeflare_operator.Naming.Hash.{seeded_hash, count-seeded_hash}
use codeflare_operator.Naming.{
  controller_name, should_use_old_name, rcc_unique_name, crb_name_from_cluster,
  oauth_secret_name_from_cluster, ca_secret_name_from_cluster,
}

module _ (h : Host) where
  crb_text :
      (a b n : String)
      → (a <> "-" <> b) <> "-" <> n <> "-auth" ≡ a <> "-" <> (b <> "-" <> n) <> "-auth"
  crb_text a b n =
      append_assoc a ("-" <> b) ("-" <> n <> "-auth")
      ∙ ap (λ t. a <> t)
          (append_assoc "-" b ("-" <> n <> "-auth")
            ∙ ap (λ t. "-" <> t)
                (sym (
                  append_assoc b ("-" <> n) "-auth"
                  ∙ ap (λ t. b <> t) (append_assoc "-" n "-auth"))))

  -- A cluster `a-b` in the namespace `n` and a cluster `a` in the namespace `b-n` have one
  -- ClusterRoleBinding between them, if both are annotated or neither is.
  pub crb_clash :
      (a b n : String) (c d : RayCluster)
      → c.name ≡ a <> "-" <> b
      → c.namespace ≡ n
      → d.name ≡ a
      → d.namespace ≡ b <> "-" <> n
      → should_use_old_name c ≡ should_use_old_name d
      → crb_name_from_cluster h c ≡ crb_name_from_cluster h d
  unfolding crb_name_from_cluster
  crb_clash a b n c d cn cs dn ds same =
      simp (same, cn, cs, dn, ds)
        (ap (λ t. if should_use_old_name d then t else rcc_unique_name h t) (crb_text a b n))

  -- Without the annotation, the CA secret of a cluster `x-oauth-config` has the name of the OAuth
  -- secret of a cluster `ca-secret-x`.
  pub old_secret_clash :
      (x : String) (c d : RayCluster)
      → c.name ≡ x <> "-oauth-config"
      → d.name ≡ "ca-secret-" <> x
      → should_use_old_name c ≡ true
      → should_use_old_name d ≡ true
      → ca_secret_name_from_cluster h c ≡ oauth_secret_name_from_cluster h d
  unfolding ca_secret_name_from_cluster oauth_secret_name_from_cluster
  old_secret_clash x c d cn dn co do_old =
      rw (co, do_old, cn, dn) (sym (append_assoc "ca-secret-" x "-oauth-config"))

  -- The binding of an annotated cluster is not the one it had before it was annotated.
  pub crb_renamed :
      IsSha256 h
      → (c d : RayCluster) → c.name ≡ d.name
      → c.namespace ≡ d.namespace
      → should_use_old_name c ≡ true
      → should_use_old_name d ≡ false
      → crb_name_from_cluster h c ≢ crb_name_from_cluster h d
  unfolding crb_name_from_cluster rcc_unique_name
  crb_renamed is_sha c d n s co dn e =
      let x = d.name <> "-" <> d.namespace <> "-auth" in
      let hash = seeded_hash h controller_name x in
      absurd (
        omega (
          arith,
          ap count (simp (n, s, co, dn) at e),
          length-append x ("-" <> hash),
          length-append "-" hash,
          count-seeded_hash h is_sha controller_name x,
        ))
