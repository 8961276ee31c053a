-- ===== src/Controller/Desired.antt =====
-- The objects that the reconciler applies: the `desired...` functions of
-- pkg/controllers/raycluster_controller.go and pkg/controllers/support.go, except the network
-- policies.
use codeflare_operator.Base.{ℕ, String, ◌<>◌, true, none, some, List, [], ◌∷◌}
use codeflare_operator.Host.{Host}
use codeflare_operator.Kube.{
  RayCluster, Object, ObjectMeta, OwnerReference, int, str, route, secret, service, service_account,
  cluster_role_binding, ingress,
}
use codeflare_operator.Naming.{
  crb_name_from_cluster, oauth_service_account_name_from_cluster, oauth_service_name_from_cluster,
  oauth_service_tls_secret_name, oauth_secret_name_from_cluster, ca_secret_name_from_cluster,
  dashboard_name_from_cluster, ray_client_name_from_cluster, service_name_from_cluster,
}

abbrev pub ray_cluster_name_label : String
ray_cluster_name_label = "ray.openshift.ai/cluster-name"

abbrev pub cluster_namespace_label : String
cluster_namespace_label = "ray.openshift.ai/cluster-namespace"

abbrev pub ca_private_key_key : String
ca_private_key_key = "ca.key"

abbrev pub ca_cert_key : String
ca_cert_key = "ca.crt"

abbrev pub oauth_service_port : ℕ
oauth_service_port = 443

abbrev pub oauth_service_port_name : String
oauth_service_port_name = "oauth-proxy"

abbrev pub ingress_service_port_name : String
ingress_service_port_name = "dashboard"

-- `ownerRefForRayCluster`
unfoldable pub owner_ref_for_ray_cluster : RayCluster → OwnerReference
owner_ref_for_ray_cluster c = record {
  api_version = c.api_version;
  kind = c.kind;
  name = c.name;
  uid = c.uid;
  controller = true;
}

-- An object of the cluster's namespace, with its label and owned by it.
abbrev pub owned_meta : RayCluster → String → List (String × String) → ObjectMeta
owned_meta c name annotations = record {
  name = name;
  namespace = c.namespace;
  labels = (ray_cluster_name_label, c.name) ∷ [];
  annotations = annotations;
  owner_references = owner_ref_for_ray_cluster c ∷ [];
}

-- `desiredRayClientRoute`
unfoldable pub desired_ray_client_route : RayCluster → Object
desired_ray_client_route c = route (owned_meta c (ray_client_name_from_cluster c) []) (record {
  to_kind = "Service";
  to_name = service_name_from_cluster c;
  to_weight = some 100;
  target_port = str "client";
  insecure_edge_termination_policy = none;
  termination = "passthrough";
})

-- `desiredRayClientIngress`
unfoldable pub desired_ray_client_ingress : RayCluster → String → Object
desired_ray_client_ingress c ingress_host =
    ingress
      (owned_meta c (ray_client_name_from_cluster c) (
        ("nginx.ingress.kubernetes.io/rewrite-target", "/")
        ∷ ("nginx.ingress.kubernetes.io/ssl-redirect", "true")
        ∷ ("nginx.ingress.kubernetes.io/ssl-passthrough", "true")
        ∷ []))
      (record {
        ingress_class_name = some "nginx";
        host = ingress_host;
        path = "/";
        path_type = "ImplementationSpecific";
        service_name = service_name_from_cluster c;
        service_port = int 10001;
      })

-- `desiredClusterIngress`
unfoldable pub desired_cluster_ingress : RayCluster → String → Object
desired_cluster_ingress c ingress_host =
    ingress (owned_meta c (dashboard_name_from_cluster c) []) (record {
      ingress_class_name = none;
      host = ingress_host;
      path = "/";
      path_type = "Prefix";
      service_name = service_name_from_cluster c;
      service_port = str ingress_service_port_name;
    })

module _ (h : Host) where
  -- `desiredOAuthClusterRoleBinding`: not of a namespace, and without an owner.
  unfoldable pub desired_oauth_cluster_role_binding : RayCluster → Object
  desired_oauth_cluster_role_binding c =
      cluster_role_binding
        (record {
          name = crb_name_from_cluster h c;
          namespace = "";
          labels = (ray_cluster_name_label, c.name) ∷ (cluster_namespace_label, c.namespace) ∷ [];
          annotations = [];
          owner_references = [];
        })
        (record {
          kind = "ServiceAccount";
          name = oauth_service_account_name_from_cluster h c;
          namespace = c.namespace;
        }
          ∷ [])
        (record {
          api_group = "rbac.authorization.k8s.io";
          kind = "ClusterRole";
          name = "system:auth-delegator";
        })

  -- `desiredServiceAccount`
  unfoldable pub desired_service_account : RayCluster → Object
  desired_service_account c = service_account (
      owned_meta c (oauth_service_account_name_from_cluster h c) (
        (
          "serviceaccounts.openshift.io/oauth-redirectreference.first",
          "{\"kind\":\"OAuthRedirectReference\",\"apiVersion\":\"v1\","
              <> "\"reference\":{\"kind\":\"Route\",\"name\":\""
              <> dashboard_name_from_cluster c
              <> "\"}}",
        )
        ∷ []))

  -- `desiredClusterRoute`
  unfoldable pub desired_cluster_route : RayCluster → Object
  desired_cluster_route c = route (owned_meta c (dashboard_name_from_cluster c) []) (record {
    to_kind = "Service";
    to_name = oauth_service_name_from_cluster h c;
    to_weight = none;
    target_port = str oauth_service_port_name;
    insecure_edge_termination_policy = some "Redirect";
    termination = "reencrypt";
  })

  -- `desiredOAuthService`
  unfoldable pub desired_oauth_service : RayCluster → Object
  desired_oauth_service c =
      service
        (owned_meta c (oauth_service_name_from_cluster h c) (
          ("service.beta.openshift.io/serving-cert-secret-name", oauth_service_tls_secret_name h c)
          ∷ []))
        (record {
          name = oauth_service_port_name;
          port = oauth_service_port;
          target_port = str oauth_service_port_name;
          protocol = "TCP";
        }
          ∷ [])
        (("ray.io/cluster", c.name) ∷ ("ray.io/node-type", "head") ∷ [])

  -- `desiredOAuthSecret`
  unfoldable pub desired_oauth_secret : RayCluster → String → Object
  desired_oauth_secret c cookie_salt =
      let cookie_secret = h.encode_base64 (h.sum1 (c.name <> cookie_salt)) in
      secret (owned_meta c (oauth_secret_name_from_cluster h c) []) []
        (("cookie_secret", cookie_secret) ∷ [])

  -- `desiredCASecret`
  unfoldable pub desired_ca_secret : RayCluster → List ℕ → List ℕ → Object
  desired_ca_secret c key cert =
      secret (owned_meta c (ca_secret_name_from_cluster h c) [])
        ((ca_private_key_key, key) ∷ (ca_cert_key, cert) ∷ []) []
