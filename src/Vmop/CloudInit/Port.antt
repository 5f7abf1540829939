-- ===== src/Vmop/CloudInit/Port.antt =====
-- `getRayPort`: the port in the start commands of Ray.
use ray_on_vcf.Prelude.{ℕ, ◌+◌, ◌≡◌, arith, inl, inr, Option-cases}
use ray_on_vcf.Go.Format.{show_int32}
use ray_on_vcf.Go.Format.Digits.{show_with, show_int32_has_fuel, ten_digits}
use ray_on_vcf.Provider.{VmDeploymentRequest}
use ray_on_vcf.Vmop.CloudInit.{get_ray_port}

-- The port of a request, whatever `uint` it is, is shown in full in the start commands: with more
-- than the ten digits that are allowed for, the text is the same.
pub port_is_shown_in_full :
    (r : VmDeploymentRequest) (k : ℕ)
    → show_with (k + 10) (get_ray_port r) ≡ show_int32 (get_ray_port r)
unfolding get_ray_port show_int32
port_is_shown_in_full r k = elim (Option-cases r.head_node_config.port) [
  | inl e ↦ rw e (ten_digits 6379 k (omega arith))
  | inr (p, e) ↦ rw e (show_int32_has_fuel p k)
]
