-- ===== src/Lib.antt =====
-- Ray on VCF: the operator of vmray-cluster-operator/ deploys Ray clusters on vSphere. A user
-- submits a VMRayCluster resource; the operator keeps a head node, worker nodes and their secrets
-- in step with it.
--
-- The parts and how they meet. The API server asks the admission webhook about a resource. The
-- reconciler (`Reconcile`) reads it and either deletes the cluster or reconciles it: finalizer and
-- nonce, root certificate, lookup of what the resource refers to, head node, workers, status. For
-- each node it calls the lifecycle manager (`ProcessNodeVmState`), a state machine over the
-- interface `VmProvider`, which the vm-operator provider implements by Kubernetes objects.
--
-- Files and code, under vmray-cluster-operator/:
--   Api, Api/Conditions             api/v1alpha1/vmraycluster_types.go
--   Api/Webhook, Api/Regex          api/v1alpha1/vmraycluster_webhook.go
--   Controller/*                    internal/controller/vmraycluster_controller.go and
--                                   vmraycluster_controller_utils.go
--   Lcm                             internal/controller/lcm/node_lcm.go
--   Provider                        pkg/provider/vm.go
--   Vmop                            pkg/provider/vmop/vmop_provider.go and translator/translator.go
--   Vmop/Rbac, Vmop/Secrets         pkg/provider/vmop/utils/utils.go
--   Vmop/DockerAuth                 pkg/provider/vmop/utils/docker_auth.go
--   Vmop/CloudInit/*                pkg/provider/vmop/cloudinit/
--   Tls                             pkg/provider/vmop/tls/tls_utils.go
--   Main                            cmd/main.go
--   System                          nothing of its own: runs of the operator beside other writers
-- and ci/pre-commit-hook/copyrights.go, the commit hook, in Hook/*, with its texts in Go/Text.
-- Definitions have the names of the functions that they translate, in lower case with underscores;
-- a step of a long function is a definition of its own, named for what it does. The modules below
-- a part hold its theorems; Tests has the theorems at concrete inputs.
--
-- State. A call that can fail and change something is an `Exec S A` of Go: from a state to a
-- result and a state, where what was written before an error stays. The lifecycle manager's state
-- `Node` is the node status and the VM service status that its request points to, and the world;
-- the reconciler's state `Ctl` is the cluster in hand and the world. The world, an unknown type,
-- is all that is outside the operator: the API server is the record `Client` of Kube, and random
-- numbers, keys and certificates are the record `Host`. Their laws, where a theorem needs them,
-- are named hypotheses (`Deletes`, `Creates`, `ReadsOnly`, `Stores`, `Storage`, `Serves`,
-- `IsFinalizers` and others), and Tests/Laws, Tests/Phases, Tests/World and Tests/Booting show that
-- servers which can be run, with vm-operator's provider, satisfy them. Kubernetes deletes in two phases: an accepted deletion marks an object, which goes when its
-- finalizers are gone. What the server is like when it has completed the deletions that it has
-- accepted, if nothing else happens, is the function `settle`, a parameter like the server.
--
-- Values. A `uint` is a number with its wrap at 2^64 written out, an `int32` is a signed number of
-- Go/Format. The string types with constants are data types with one more constructor for any
-- other text. A map is an association list in the order in which a `range` visits it; a nil map is
-- the empty one. A pointer that may be nil is an `Option`. Texts and bytes are the same. Logging
-- is left out, and error values are told apart by what the code tests. Calls of `time.Now` with no
-- other call between them read one instant, and `GetConfigOrDie` is a part of the making of the
-- manager.
--
-- Loops are recursion on the list that they visit. The only fuel is in `show_digits`, with ten for
-- the at most ten digits of an `int32` (Go/Format/Digits); `rounds` counts the calls
-- of the lifecycle manager.
--
-- Not modelled: the registration of types and controllers, the generated deep copies, which a
-- model with values does not need, the mock provider and the tests. Parameters are the API server,
-- controller-runtime's manager and controllerutil, the image reference expression, the YAML and
-- base64 encoders, RSA, x509 and PEM; for the commit hook, the file system, Go's parser and regexp.
pub mod System
pub mod Main
pub mod Hook
pub mod Prelude
pub mod Go
pub mod Api
pub mod Provider
pub mod Lcm
pub mod Kube
pub mod Tls
pub mod Vmop
pub mod Controller
pub mod Tests
