-- ===== src/Provider/Frame.antt =====
-- A provider that leaves something of the world alone.
use ray_on_vcf.Prelude.{◌≡◌, String}
use ray_on_vcf.Kube.Frame.{Leaves}
use ray_on_vcf.Provider.{VmProvider, VmDeploymentRequest}

pub record ProviderLeaves {W X : Type 0} (see : W → X) (provider : VmProvider W) : Type 0 where
  pub deploy : (r : VmDeploymentRequest) → Leaves see (provider.deploy r)
  pub service : (r : VmDeploymentRequest) → Leaves see (provider.deploy_vm_service r)
  pub delete : (namespace name : String) → Leaves see (provider.delete namespace name)
  pub fetch : (namespace name : String) → Leaves see (provider.fetch_vm_status namespace name)
  pub auxiliary :
      (namespace name : String) → Leaves see (provider.delete_auxiliary_resources namespace name)

-- The calls for one node leave something of the world alone.
pub record NodeLeaves {W X : Type 0} (see : W → X) (provider : VmProvider W)
    (namespace name : String) : Type 0 where
  pub deploy :
      (r : VmDeploymentRequest)
      → r.namespace ≡ namespace
      → r.vm_name ≡ name
      → Leaves see (provider.deploy r)
  pub service :
      (r : VmDeploymentRequest)
      → r.namespace ≡ namespace
      → r.vm_name ≡ name
      → Leaves see (provider.deploy_vm_service r)
  pub fetch : Leaves see (provider.fetch_vm_status namespace name)

pub every-NodeLeaves :
    {W X : Type 0} (see : W → X) (provider : VmProvider W)
    → ProviderLeaves see provider
    → (namespace name : String) → NodeLeaves see provider namespace name
every-NodeLeaves see provider law namespace name = record {
  deploy = λ r n m. law.deploy r;
  service = λ r n m. law.service r;
  fetch = law.fetch namespace name;
}
