-- ===== src/Webhook/Parts.antt =====
-- What the webhook of pkg/controllers/raycluster_webhook.go injects: containers, volumes, volume
-- mounts and environment variables.
use codeflare_operator.Base.{String, ◌<>◌, true, false, none, some, List, [], ◌∷◌}
use codeflare_operator.Host.{Host}
use codeflare_operator.Config.{KubeRayConfiguration}
use codeflare_operator.Kube.{RayCluster, Container, EnvVar, Volume, VolumeMount}
use codeflare_operator.Naming.{
  cert_generator_image, oauth_proxy_image, oauth_secret_name_from_cluster,
  oauth_service_account_name_from_cluster, oauth_service_tls_secret_name,
  ca_secret_name_from_cluster, ray_client_name_from_cluster, service_name_from_cluster,
}

abbrev pub oauth_proxy_container_name : String
oauth_proxy_container_name = "oauth-proxy"

abbrev pub oauth_proxy_volume_name : String
oauth_proxy_volume_name = "proxy-tls-secret"

abbrev pub init_container_name : String
init_container_name = "create-cert"

abbrev literal_env : String → String → EnvVar
literal_env name value = record { name = name; value = value; value_from = none }

-- `certVolumeMounts`
unfoldable pub cert_volume_mounts : List VolumeMount
cert_volume_mounts =
    record { name = "ca-vol"; mount_path = "/home/ray/workspace/ca"; read_only = true; others = [] }
    ∷ record {
      name = "server-cert";
      mount_path = "/home/ray/workspace/tls";
      read_only = false;
      others = [];
    }
    ∷ []

-- `envVarList`
unfoldable pub env_var_list : List EnvVar
env_var_list =
    record {
      name = "MY_POD_IP";
      value = "";
      value_from = some (record {
        field_ref = some (record { field_path = "status.podIP"; others = [] });
        secret_key_ref = none;
        others = [];
      });
    }
    ∷ literal_env "RAY_USE_TLS" "1"
    ∷ literal_env "RAY_TLS_SERVER_CERT" "/home/ray/workspace/tls/server.crt"
    ∷ literal_env "RAY_TLS_SERVER_KEY" "/home/ray/workspace/tls/server.key"
    ∷ literal_env "RAY_TLS_CA_CERT" "/home/ray/workspace/tls/ca.crt"
    ∷ []

-- The shell command of the init containers, up to the alternative names and from their end on.
abbrev command_head : String
command_head =
    "cd /home/ray/workspace/tls && openssl req -nodes -newkey rsa:2048 -keyout server.key -out server.csr -subj '/CN=ray-head' && printf \"authorityKeyIdentifier=keyid,issuer\\nbasicConstraints=CA:FALSE\\nsubjectAltName = @alt_names\\n[alt_names]\\nDNS.1 = 127.0.0.1\\nDNS.2 = localhost\\nDNS.3 = ${FQ_RAY_IP}\\nDNS.4 = $(awk 'END{print $1}' /etc/hosts)"

abbrev command_tail : String
command_tail =
    "\">./domain.ext && cp /home/ray/workspace/ca/* . && openssl x509 -req -CA ca.crt -CAkey ca.key -in server.csr -out server.crt -days 365 -CAcreateserial -extfile domain.ext"

module _ (h : Host) where
  -- `oauthProxyContainer`
  unfoldable pub oauth_proxy_container : RayCluster → Container
  oauth_proxy_container c = record {
    name = oauth_proxy_container_name;
    image = oauth_proxy_image h;
    command = [];
    args =
        "--https-address=:8443"
        ∷ "--provider=openshift"
        ∷ ("--openshift-service-account=" <> oauth_service_account_name_from_cluster h c)
        ∷ "--upstream=http://localhost:8265"
        ∷ "--tls-cert=/etc/tls/private/tls.crt"
        ∷ "--tls-key=/etc/tls/private/tls.key"
        ∷ "--cookie-secret=$(COOKIE_SECRET)"
        ∷ ("--openshift-delegate-urls={\"/\":{\"resource\":\"pods\",\"namespace\":\"" <> c.namespace
            <> "\",\"verb\":\"get\"}}")
        ∷ [];
    ports = record { container_port = 8443; name = "oauth-proxy"; others = [] } ∷ [];
    env =
        record {
          name = "COOKIE_SECRET";
          value = "";
          value_from = some (record {
            field_ref = none;
            secret_key_ref = some (record {
              name = oauth_secret_name_from_cluster h c;
              key = "cookie_secret";
              others = [];
            });
            others = [];
          });
        }
        ∷ [];
    volume_mounts =
        record {
          name = oauth_proxy_volume_name;
          mount_path = "/etc/tls/private";
          read_only = true;
          others = [];
        }
        ∷ [];
    others = [];
  }

  -- `oauthProxyTLSSecretVolume`
  unfoldable pub oauth_proxy_tls_secret_volume : RayCluster → Volume
  oauth_proxy_tls_secret_volume c = record {
    name = oauth_proxy_volume_name;
    secret = some (record { secret_name = oauth_service_tls_secret_name h c; others = [] });
    empty_dir = none;
    others = [];
  }

  -- `caVolumes`
  unfoldable pub ca_volumes : RayCluster → List Volume
  ca_volumes c =
      record {
        name = "ca-vol";
        secret = some (record { secret_name = ca_secret_name_from_cluster h c; others = [] });
        empty_dir = none;
        others = [];
      }
      ∷ record {
        name = "server-cert";
        secret = none;
        empty_dir = some (record { others = [] });
        others = [];
      }
      ∷ []

  create_cert : String → Container
  create_cert command = record {
    name = "create-cert";
    image = cert_generator_image h;
    command = "sh" ∷ "-c" ∷ command ∷ [];
    args = [];
    ports = [];
    env = [];
    volume_mounts = cert_volume_mounts;
    others = [];
  }

  -- `rayHeadInitContainer`
  unfoldable pub ray_head_init_container : RayCluster → KubeRayConfiguration → Container
  unfolding create_cert
  ray_head_init_container c cfg =
      let ray_client_route =
        ray_client_name_from_cluster c <> "-" <> c.namespace <> "." <> cfg.ingress_domain in
      let svc_domain = service_name_from_cluster c <> "." <> c.namespace <> ".svc" in
      create_cert (
        command_head <> "\\nDNS.5 = " <> ray_client_route <> "\\nDNS.6 = " <> svc_domain
        <> command_tail)

  -- `rayWorkerInitContainer`, which does not read its configuration.
  unfoldable pub ray_worker_init_container : KubeRayConfiguration → Container
  unfolding create_cert
  ray_worker_init_container cfg = create_cert (command_head <> command_tail)
