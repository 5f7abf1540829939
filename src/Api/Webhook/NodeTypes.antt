-- ===== src/Api/Webhook/NodeTypes.antt =====
-- `validateNodeTypes` against a plain description of what it is to check.
use mathlib.Core.List.{Permᴰ}
use ray_on_vcf.Prelude.{
  ℕ, ◌+◌, ◌*◌, ◌%◌, ◌≤◌, ◌<◌, String, ◌≡◌, ◌↔◌, refl, sym, ◌∙◌, Bool, true, false, ◌||◌, none, [],
  ◌∷◌, length, arith, ◌==◌, uint_mod,
}
use ray_on_vcf.Prelude.Dict.{Dict}
use ray_on_vcf.Api.{NodeType, VmRayCluster}
use ray_on_vcf.Api.Webhook.{Scan, stop, end, scan_types, after_scan, validate_node_types}

-- The sum of the `min_workers`, as a number without bound.
abbrev pub total_min : Dict NodeType → ℕ
total_min [] = 0
total_min ((name, nt) ∷ types) = nt.min_workers + total_min types

-- Each node type has `min_workers` up to `max_workers`, and that up to the cluster's.
abbrev pub Bounded : ℕ → Dict NodeType → Type 0
Bounded max [] = Unit
Bounded max ((name, nt) ∷ types) =
    (nt.min_workers ≤ nt.max_workers) × (nt.max_workers ≤ max) × Bounded max types

-- Is there a node type of that name?
abbrev pub named : String → Dict NodeType → Bool
named head [] = false
named head ((name, nt) ∷ types) = (head == name) || named head types

-- A loop that is not stopped has met bounded types only, and has their total and the test.
scan_types-end :
    (max : ℕ) (head : String) (types : Dict NodeType) (total total' : ℕ) (exists exists' : Bool)
    → total < uint_mod
    → scan_types max head types total exists ≡ end total' exists'
    → Bounded max types
      × ((total + total_min types) % uint_mod ≡ total')
      × (exists' ≡ (exists || named head types))
unfolding scan_types
scan_types-end max head [] total total' exists exists' small h = ground arith
scan_types-end max head ((name, nt) ∷ types) total total' exists exists' small h = ground (
  arith,
  scan_types-end max head types ((total + nt.min_workers) % uint_mod) total'
      (exists || (head == name)) exists',
)

-- Bounded types never stop the loop.
scan_types-Bounded :
    (max : ℕ) (head : String) (types : Dict NodeType) (total : ℕ) (exists : Bool)
    → total < uint_mod
    → Bounded max types
    → scan_types max head types total exists
      ≡ end ((total + total_min types) % uint_mod) (exists || named head types)
unfolding scan_types
scan_types-Bounded max head [] total exists small b = ground arith
scan_types-Bounded max head ((name, nt) ∷ types) total exists small b = ground (
  arith,
  scan_types-Bounded max head types ((total + nt.min_workers) % uint_mod)
      (exists || (head == name)),
)

abbrev pub max_of : VmRayCluster → ℕ
max_of r = r.spec.node_config.max_workers

abbrev pub types_of : VmRayCluster → Dict NodeType
types_of r = r.spec.node_config.node_types

-- What the node types of an admitted cluster satisfy; the sum is the `uint` that the code adds up.
pub record IsAdmissible (max : ℕ) (head : String) (types : Dict NodeType) : Type 0 where
  pub bounded : Bounded max types
  pub has_head : named head types ≡ true
  pub total_fits : total_min types % uint_mod ≤ max

module _ (max : ℕ) (head : String) (types : Dict NodeType) where
  none-IsAdmissible :
      (s : Scan)
      → scan_types max head types 0 false ≡ s
      → after_scan max head s ≡ none
      → IsAdmissible max head types
  unfolding after_scan
  none-IsAdmissible (stop e) p h = cc
  none-IsAdmissible (end total false) p h = cc
  none-IsAdmissible (end total true) p h =
      let (bounded, sum, found) =
        scan_types-end max head types 0 total false true (omega arith) p in
      record { bounded = bounded; has_head = sym found; total_fits = ground arith }

  IsAdmissible-none :
      IsAdmissible max head types → after_scan max head (scan_types max head types 0 false) ≡ none
  unfolding after_scan
  IsAdmissible-none h =
      rw (scan_types-Bounded max head types 0 false (omega arith) h.bounded, h.has_head)
        (ground (arith, h.total_fits))

-- The node types pass exactly if each has its minimum within its maximum and that within the
-- cluster's, the head's type is among them, and the sum of the minima modulo 2^64 is within the
-- cluster's maximum.
pub validate_node_types_iff :
    (r : VmRayCluster)
    → (validate_node_types r ≡ none)
      ↔ IsAdmissible (max_of r) r.spec.head_node.node_type (types_of r)
unfolding validate_node_types
validate_node_types_iff r = (
  none-IsAdmissible (max_of r) r.spec.head_node.node_type (types_of r) _ refl,
  IsAdmissible-none (max_of r) r.spec.head_node.node_type (types_of r),
)

total_min-le :
    (max : ℕ) (types : Dict NodeType) → Bounded max types → total_min types ≤ length types * max
total_min-le max [] b = omega arith
total_min-le max ((name, nt) ∷ types) b = grind (arith, total_min-le max types b.2)

-- Where the number of node types times the cluster's maximum is below 2^64, node types that pass
-- have minima that truly add up to at most the cluster's maximum.
pub min_workers_fit :
    (r : VmRayCluster)
    → validate_node_types r ≡ none
    → length (types_of r) * max_of r < uint_mod
    → total_min (types_of r) ≤ max_of r
min_workers_fit r h small =
    let a = (validate_node_types_iff r).0 h in
    omega (arith, total_min-le (max_of r) (types_of r) a.bounded, a.total_fits)

-- Node types that pass every other check are admitted too when their minima add up to at least
-- 2^64 and pass it by no more than the cluster's maximum, although they add up to more than the
-- cluster's maximum.
pub overflow_is_admitted :
    (r : VmRayCluster)
    → Bounded (max_of r) (types_of r)
    → named r.spec.head_node.node_type (types_of r) ≡ true
    → max_of r < uint_mod
    → uint_mod ≤ total_min (types_of r)
    → total_min (types_of r) ≤ uint_mod + max_of r
    → (validate_node_types r ≡ none) × (max_of r < total_min (types_of r))
overflow_is_admitted r b n small lo hi = (
  (validate_node_types_iff r).1 (record { bounded = b; has_head = n; total_fits = omega arith }),
  omega arith,
)

Bounded-perm :
    (max : ℕ) {types types' : Dict NodeType}
    → Permᴰ types types'
    → Bounded max types
    → Bounded max types'
Bounded-perm max Permᴰ.nil b = tt
Bounded-perm max (Permᴰ.cons {a = (n, s)} {b = (m, t)} e p) b =
    ground (arith, Bounded-perm max p b.2)
Bounded-perm max (Permᴰ.swap {a = (n, s)} {b = (m, t)} {a' = (o, u)} {b' = (q, v)} e f) b =
    ground arith
Bounded-perm max (Permᴰ.trans p q) b = Bounded-perm max q (Bounded-perm max p b)

total_min-perm :
    {types types' : Dict NodeType} → Permᴰ types types' → total_min types ≡ total_min types'
total_min-perm Permᴰ.nil = refl
total_min-perm (Permᴰ.cons {a = (n, s)} {b = (m, t)} e p) = ground (arith, total_min-perm p)
total_min-perm (Permᴰ.swap {a = (n, s)} {b = (m, t)} {a' = (o, u)} {b' = (q, v)} e f) = ground arith
total_min-perm (Permᴰ.trans p q) = total_min-perm p ∙ total_min-perm q

named-perm :
    (head : String) {types types' : Dict NodeType}
    → Permᴰ types types'
    → named head types ≡ named head types'
named-perm head Permᴰ.nil = refl
named-perm head (Permᴰ.cons {a = (n, s)} {b = (m, t)} e p) = ground (arith, named-perm head p)
named-perm head (Permᴰ.swap {a = (n, s)} {b = (m, t)} {a' = (o, u)} {b' = (q, v)} e f) =
    ground arith
named-perm head (Permᴰ.trans p q) = named-perm head p ∙ named-perm head q

abbrev pub with_types : VmRayCluster → Dict NodeType → VmRayCluster
with_types r types = record r {
  spec = record r.spec { node_config = record r.spec.node_config { node_types = types } };
}

-- Go visits a map in any order: node types that pass in one order pass in every order.
pub order_does_not_matter :
    (r : VmRayCluster) (types : Dict NodeType)
    → Permᴰ (types_of r) types
    → validate_node_types r ≡ none
    → validate_node_types (with_types r types) ≡ none
order_does_not_matter r types p h =
    let a = (validate_node_types_iff r).0 h in
    (validate_node_types_iff (with_types r types)).1 (record {
      bounded = Bounded-perm (max_of r) p a.bounded;
      has_head = sym (named-perm r.spec.head_node.node_type p) ∙ a.has_head;
      total_fits = rw (← total_min-perm p) a.total_fits;
    })
