-- ===== src/Kube.antt =====
-- The Kubernetes API server, as the operator's `client.Client` reaches it: a parameter of the
-- model, over an unknown state `W`. Of the objects of other projects (core/v1, rbac/v1,
-- storage/v1, vm-operator's v1alpha2) the model has the fields that the code reads or fills in.
pub mod Frame
use ray_on_vcf.Prelude.{ℕ, String, Bool, Option, List}
use ray_on_vcf.Prelude.Dict.{Dict}
use ray_on_vcf.Go.{Exec}
use ray_on_vcf.Go.Format.{ℤ}
use ray_on_vcf.Api.{Condition, VmRayCluster}

-- `client.ObjectKey`, also `types.NamespacedName`.
pub record ObjectKey : Type 0 where
  pub namespace : String
  pub name : String

-- `data` holds bytes and `string_data` texts, both as texts here.
pub record Secret : Type 0 where
  pub key : ObjectKey
  pub content : Dict String
  pub string_data : Dict String

pub record ServiceAccount : Type 0 where
  pub key : ObjectKey

pub record PolicyRule : Type 0 where
  pub api_groups : List String
  pub resources : List String
  pub verbs : List String

pub record Role : Type 0 where
  pub key : ObjectKey
  pub rules : List PolicyRule

pub record RoleRef : Type 0 where
  pub api_group : String
  pub kind : String
  pub name : String

pub record Subject : Type 0 where
  pub kind : String
  pub name : String
  pub namespace : String

pub record RoleBinding : Type 0 where
  pub key : ObjectKey
  pub role_ref : RoleRef
  pub subjects : List Subject

-- `primary_ip4` is `none` while `Status.Network` is nil; `network` is the address of a spec.
pub record VirtualMachine : Type 0 where
  pub key : ObjectKey
  pub labels : Dict String
  pub image_name : String
  pub class_name : String
  pub power_state : String
  pub storage_class : String
  pub network : Option ℕ
  pub cloud_config_secret : String
  pub cloud_config_key : String
  pub primary_ip4 : Option String
  pub conditions : List Condition

pub record VirtualMachineServicePort : Type 0 where
  pub name : String
  pub protocol : String
  pub port : ℤ
  pub target_port : ℤ

-- `ingress` holds the addresses of `Status.LoadBalancer.Ingress`.
pub record VirtualMachineService : Type 0 where
  pub key : ObjectKey
  pub selector : Dict String
  pub ports : List VirtualMachineServicePort
  pub type : String
  pub ingress : List String

-- The calls for objects of one kind. A write returns the object as the server has it then.
pub record Resource (W O : Type 0) : Type 0 where
  pub get : ObjectKey → Exec W O
  pub create : O → Exec W O
  pub delete : O → Exec W Unit

-- `Update` of a cluster, and `Status().Patch` of a cluster from its original.
pub record Client (W : Type 0) : Type 0 where
  pub secrets : Resource W Secret
  pub service_accounts : Resource W ServiceAccount
  pub roles : Resource W Role
  pub role_bindings : Resource W RoleBinding
  pub virtual_machines : Resource W VirtualMachine
  pub vm_services : Resource W VirtualMachineService
  pub get_vm_image : ObjectKey → Exec W Unit
  pub get_storage_class : ObjectKey → Exec W Unit
  pub get_vm_class : ObjectKey → Exec W Unit
  pub create_token : ServiceAccount → ℕ → Exec W String
  pub get_cluster : ObjectKey → Exec W VmRayCluster
  pub update_cluster : VmRayCluster → Exec W VmRayCluster
  pub patch_status : VmRayCluster → VmRayCluster → Exec W VmRayCluster

-- `AddFinalizer`, `RemoveFinalizer` and `ContainsFinalizer` of controller-runtime's controllerutil.
pub record ControllerUtil : Type 0 where
  pub contains_finalizer : VmRayCluster → String → Bool
  pub add_finalizer : VmRayCluster → String → VmRayCluster
  pub remove_finalizer : VmRayCluster → String → VmRayCluster

-- `x509.Certificate`, as far as it is filled in; times are in seconds.
pub record Certificate : Type 0 where
  pub serial_number : ℕ
  pub organization : List String
  pub country : List String
  pub province : List String
  pub locality : List String
  pub street_address : List String
  pub postal_code : List String
  pub not_before : ℕ
  pub not_after : ℕ
  pub is_ca : Bool
  pub ext_key_usage : List String
  pub key_usage : List String
  pub basic_constraints_valid : Bool

-- What the standard library takes from outside the process or from a cipher: the time in seconds,
-- `time.AddDate`, `rand.Intn(n)`, RSA keys, certificates signed by their own key, and PEM blocks.
pub record Host (W : Type 0) : Type 0 where
  pub now : W → ℕ
  pub add_years : ℕ → ℕ → ℕ
  pub intn : ℕ → W → ℕ × W
  pub generate_key : ℕ → Exec W String
  pub create_certificate : Certificate → String → Exec W String
  pub marshal_pkcs1 : String → String
  pub pem_encode : String → String → String
