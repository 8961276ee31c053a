-- ===== src/Controller/Api.antt =====
-- What the reconciler asks of the API server and of Go's crypto packages. Both answer as they like:
-- any call may fail, and a cluster that is updated comes back as the server has it.
use codeflare_operator.Base.{◌≡◌, refl, ◌⊎◌, inl, inr, ℕ, String, Bool, List}
use codeflare_operator.Kube.{RayCluster, Object, Pod, ServiceAccount}

-- A failure of a call, or an error that the operator makes or wraps.
pub data Error (F : Type 0) : Type 0 where
  api : F → Error F
  message : String → Error F
  wrapped : String → Error F → Error F

pub data Result (F : Type 0) (A : Type 0) : Type 0 where
  ok : A → Result F A
  err : F → Result F A

module _ {F A : Type 0} where
  pub Result-cases : (x : Result F A) → ((y : A) × (x ≡ ok y)) ⊎ ((e : F) × (x ≡ err e))
  Result-cases (ok y) = inl (y, refl)
  Result-cases (err e) = inr (e, refl)

-- A secret's data, by key.
abbrev pub SecretData : Type 0
SecretData = List (String × List ℕ)

-- The certificate template of x509, with the fields that the operator sets.
pub record Template (Time : Type 0) : Type 0 where
  pub serial_number : ℕ
  pub subject_common_name : String
  pub issuer_common_name : String
  pub not_before : Time
  pub not_after : Time
  pub is_ca : Bool
  pub ext_key_usage : List String
  pub key_usage : List String
  pub basic_constraints_valid : Bool

pub record Api : Type 1 where
  pub State : Type 0
  pub Failure : Type 0
  pub is_not_found : Failure → Bool
  pub contains_finalizer : RayCluster → String → Bool
  pub add_finalizer : RayCluster → String → RayCluster
  pub remove_finalizer : RayCluster → String → RayCluster
  pub get_ray_cluster : (namespace name : String) → State → Result Failure RayCluster × State
  pub update_ray_cluster : RayCluster → State → Result Failure RayCluster × State
  pub delete_cluster_role_binding :
      (name policy : String) → State → Result Failure (Unit {0}) × State
  pub get_secret : (namespace name : String) → State → Result Failure SecretData × State
  pub apply :
      (field_manager : String) (force : Bool) → Object → State → Result Failure (Unit {0}) × State
  pub get_service_account :
      (namespace name : String) → State → Result Failure ServiceAccount × State
  pub list_pods : (namespace label_selector : String) → State → Result Failure (List Pod) × State
  pub delete_pod : (namespace name : String) → State → Result Failure (Unit {0}) × State
  pub get_dsci_applications_namespace : (name : String) → State → Result Failure String × State
  pub Time : Type 0
  pub PrivateKey : Type 0
  pub PublicKey : Type 0
  pub random_int63 : State → ℕ × State
  pub now : State → Time × State
  pub add_date : Time → (years months days : ℕ) → Time
  pub generate_key : (bits : ℕ) → State → Result Failure PrivateKey × State
  pub public_key : PrivateKey → PublicKey
  pub create_certificate :
      (template parent : Template Time)
      → PublicKey
      → PrivateKey
      → State
      → Result Failure (List ℕ) × State
  pub marshal_pkcs1_private_key : PrivateKey → List ℕ
  pub pem_encode : (kind : String) → List ℕ → List ℕ
