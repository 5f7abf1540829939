-- ===== src/Api/Conditions.antt =====
-- The constants of vmray-cluster-operator/api/v1alpha1/vmraycluster_types.go.
use ray_on_vcf.Prelude.{String}

abbrev pub head_node_ready : String
head_node_ready = "HeadNodeReady"

abbrev pub worker_node_ready : String
worker_node_ready = "WorkerNodeReady"

abbrev pub cluster_delete : String
cluster_delete = "DeleteCluster"

abbrev pub invalid_vmi : String
invalid_vmi = "InvalidVirtualMachineImage"

abbrev pub invalid_storage_class : String
invalid_storage_class = "InvalidStorageClass"

abbrev pub invalid_vm_class : String
invalid_vm_class = "InvalidVirtualMachineClass"

abbrev pub failure_to_deploy_node : String
failure_to_deploy_node = "FailureToDeployNode"

abbrev pub failure_to_delete_auxiliary_resources : String
failure_to_delete_auxiliary_resources = "FailureToDeleteAuxiliaryResources"

abbrev pub failure_to_delete_head_node : String
failure_to_delete_head_node = "FailureToDeleteHeadNode"

abbrev pub failure_to_delete_worker_node : String
failure_to_delete_worker_node = "FailureToDeleteWorkerNode"

abbrev pub resource_not_found : String
resource_not_found = "ResourceNotFound"
