-- ===== src/Verify/Nodes.antt =====
-- The map of provers of pois/verify.go: what is read after a write.
use cess_pos_demo.Common.{List, [], ◌∷◌, some, ◌≡◌, Bool-cases, inl, inr}
use mathlib.Core.Path.{subst}
use cess_pos_demo.BigInt.{Bytes, equal}
use cess_pos_demo.Verify.{ProverNode, find_node, put_node}

-- A predicate of all records of provers.
abbrev pub EachNode : (ProverNode → Type 0) → List (Bytes × ProverNode) → Type 0
EachNode P [] = Unit {0}
EachNode P ((id, node) ∷ nodes) = P node × EachNode P nodes

pub find_node-EachNode :
    (P : ProverNode → Type 0) (id : Bytes) (nodes : List (Bytes × ProverNode)) (node : ProverNode)
    → EachNode P nodes
    → find_node id nodes ≡ some node
    → P node
unfolding find_node
find_node-EachNode P id [] node ps h = cc
find_node-EachNode P id ((id', old) ∷ nodes) node (p, ps) h = elim (Bool-cases (equal id id')) [
  | inl q ↦ subst P (let e : some old ≡ some node = rw q at h in cc) p
  | inr q ↦ find_node-EachNode P id nodes node ps (rw q at h)
]

pub put_node-EachNode :
    (P : ProverNode → Type 0) (id : Bytes) (node : ProverNode) (nodes : List (Bytes × ProverNode))
    → P node
    → EachNode P nodes
    → EachNode P (put_node id node nodes)
unfolding put_node
put_node-EachNode P id node [] p ps = tt
put_node-EachNode P id node ((id', old) ∷ nodes) p (q, ps) = elim (Bool-cases (equal id id')) [
  | inl e ↦ rw e (p, ps)
  | inr e ↦ rw e (q, put_node-EachNode P id node nodes p ps)
]

pub find_node-put_node :
    (id : Bytes) (node : ProverNode) (nodes : List (Bytes × ProverNode)) {old : ProverNode}
    → find_node id nodes ≡ some old
    → find_node id (put_node id node nodes) ≡ some node
unfolding find_node put_node
find_node-put_node id node [] h = cc
find_node-put_node id node ((id', old') ∷ nodes) h = elim (Bool-cases (equal id id')) [
  | inl e ↦ rw (e, e)
  | inr e ↦ rw (e, e) (find_node-put_node id node nodes (rw e at h))
]
