-- ===== src/Tests/Names.antt =====
-- The theorems on names, at two clusters.
use codeflare_operator.Base.{
  ◌≡◌, ◌≤◌, ◌↔◌, ◌≢◌, refl, none, ◌∙◌, sym, true, false, arith, eq_iff, String,
}
use codeflare_operator.Base.StringMap.{lookup}
use codeflare_operator.Kube.{RayCluster}
use codeflare_operator.Naming.{
  should_use_old_name, rcc_unique_name, crb_name_from_cluster,
  oauth_service_account_name_from_cluster, oauth_service_name_from_cluster,
  oauth_service_tls_secret_name, oauth_secret_name_from_cluster, ca_secret_name_from_cluster,
  worker_nwp_name_from_cluster, head_nwp_name_from_cluster,
}
use codeflare_operator.Naming.Hash.{seeded_hash}
use codeflare_operator.Naming.Unique.{rcc_unique_name-injective, names_apart, kinds_apart}
use codeflare_operator.Naming.Lengths.{oauth_service_name-fits_iff}
use Prim.Native.String.{count}
use codeflare_operator.Naming.Clashes.{crb_clash, old_secret_clash}
use codeflare_operator.Tests.Data.{host, host-IsSha256, cluster_of, annotated}

abbrev first_cluster : RayCluster
first_cluster = annotated "a-b" "n"

abbrev second_cluster : RayCluster
second_cluster = annotated "a" "b-n"

first_is_new : should_use_old_name first_cluster ≡ false
unfolding should_use_old_name lookup
first_is_new = refl

second_is_new : should_use_old_name second_cluster ≡ false
unfolding should_use_old_name lookup
second_is_new = refl

names_differ : ◌≢◌ {A = String} "a-b" "a"
names_differ = ground (arith, eq_iff "a-b" "a")

hash_test : rcc_unique_name host "raytest" ≡ "raytest-ab020304"
unfolding rcc_unique_name seeded_hash
hash_test = refl

rcc_unique_name-injective_example : ◌≡◌ {A = String} "raytest" "raytest"
rcc_unique_name-injective_example =
    rcc_unique_name-injective host host-IsSha256 "raytest" "raytest" refl

names_apart_example :
    (oauth_service_account_name_from_cluster host first_cluster
      ≢ oauth_service_account_name_from_cluster host second_cluster)
    × (oauth_service_name_from_cluster host first_cluster
        ≢ oauth_service_name_from_cluster host second_cluster)
    × (oauth_service_tls_secret_name host first_cluster
        ≢ oauth_service_tls_secret_name host second_cluster)
    × (oauth_secret_name_from_cluster host first_cluster
        ≢ oauth_secret_name_from_cluster host second_cluster)
    × (ca_secret_name_from_cluster host first_cluster
        ≢ ca_secret_name_from_cluster host second_cluster)
    × (worker_nwp_name_from_cluster host first_cluster
        ≢ worker_nwp_name_from_cluster host second_cluster)
    × (head_nwp_name_from_cluster host first_cluster
        ≢ head_nwp_name_from_cluster host second_cluster)
names_apart_example =
    names_apart host host-IsSha256 first_cluster second_cluster first_is_new second_is_new
      names_differ

kinds_apart_example :
    (oauth_secret_name_from_cluster host first_cluster
      ≢ ca_secret_name_from_cluster host second_cluster)
    × (oauth_secret_name_from_cluster host first_cluster
        ≢ oauth_service_tls_secret_name host second_cluster)
    × (oauth_service_tls_secret_name host first_cluster
        ≢ ca_secret_name_from_cluster host second_cluster)
    × (head_nwp_name_from_cluster host first_cluster
        ≢ worker_nwp_name_from_cluster host second_cluster)
kinds_apart_example =
    kinds_apart host host-IsSha256 first_cluster second_cluster first_is_new second_is_new

crb_clash_example :
    crb_name_from_cluster host first_cluster ≡ crb_name_from_cluster host second_cluster
crb_clash_example =
    crb_clash host "a" "b" "n" first_cluster second_cluster refl refl refl refl
      (first_is_new ∙ sym second_is_new)

abbrev old_x : RayCluster
old_x = cluster_of "ray-head" "x-oauth-config" "n" none none

abbrev old_ca_x : RayCluster
old_ca_x = cluster_of "ray-head" "ca-secret-x" "n" none none

old_x_is_old : should_use_old_name old_x ≡ true
unfolding should_use_old_name
old_x_is_old = refl

old_ca_x_is_old : should_use_old_name old_ca_x ≡ true
unfolding should_use_old_name
old_ca_x_is_old = refl

old_secret_clash_example :
    ca_secret_name_from_cluster host old_x ≡ oauth_secret_name_from_cluster host old_ca_x
old_secret_clash_example =
    old_secret_clash host "x" old_x old_ca_x refl refl old_x_is_old old_ca_x_is_old

oauth_service_name-fits_iff_example :
    (count (oauth_service_name_from_cluster host first_cluster) ≤ 63)
    ↔ (count first_cluster.name ≤ 48)
oauth_service_name-fits_iff_example =
    oauth_service_name-fits_iff host host-IsSha256 first_cluster first_is_new
