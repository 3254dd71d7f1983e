-- ===== src/Expander/Idle/Contents.antt =====
-- What is hashed for a node of expanders/generate_idle_file.go.
use cess_pos_demo.Common.{
  ℕ, ◌+◌, ◌*◌, ◌%◌, ◌≤◌, ◌<◌, Bool, true, false, not, ◌&&◌, List, [], ◌∷◌, ◌++◌, length, drop,
  length-append, length-take, length-drop, ltb, leb, if◌then◌else◌, ◌≡◌, refl, sym, ap, ◌∙◌, arith,
}
use native.Mathlib.Nat.{mul-le-mul_right}
use mathlib.Core.List.{append_assoc}
use cess_pos_demo.BigInt.{Bytes}
use cess_pos_demo.Encoding.{hash_size, get_bytes, copy_data}
use cess_pos_demo.Encoding.Laws.{concat, write_at-append, copy_data-front, length-get_bytes}
use cess_pos_demo.Mht.Slots.{slot}
use cess_pos_demo.Expander.Parents.{Node, no_parents}
use cess_pos_demo.Expander.Idle.{node_type_size, label_left_size, put_labels, node_content}

-- The labels of the parents of a node of layer `i`.
abbrev pub labels_of : ℕ → ℕ → Bytes → Bytes → List ℕ → List Bytes
labels_of n i above labels [] = []
labels_of n i above labels (p ∷ parents) =
    slot hash_size (if ltb p (i * n) then above else labels) (p % n)
    ∷ labels_of n i above labels parents

-- What stands in front of them.
abbrev pub front_of : Bytes → ℕ → ℕ → Bytes
front_of id count index = concat (id ∷ get_bytes 8 count ∷ get_bytes node_type_size index ∷ [])

pub length-front_of :
    (id : Bytes) (count index : ℕ) → length (front_of id count index) ≡ label_left_size id
length-front_of id count index = omega (
  arith,
  length-append id (get_bytes 8 count ++ (get_bytes node_type_size index ++ [])),
  length-append (get_bytes 8 count) (get_bytes node_type_size index ++ []),
  length-append (get_bytes node_type_size index) [],
  length-get_bytes 8 count,
  length-get_bytes node_type_size index,
)

pub length-slot :
    (size s : ℕ) (bytes : Bytes) → (s + 1) * size ≤ length bytes → length (slot size bytes s) ≡ size
unfolding slot
length-slot size s bytes h =
    let e : (s + 1) * size ≡ s * size + size = grind arith in
    omega (arith, length-take size (drop (s * size) bytes), length-drop (s * size) bytes)

-- A slot of a slice of `n` slots.
pub length-row :
    (size n s : ℕ) (bytes : Bytes)
    → s < n
    → length bytes ≡ n * size
    → length (slot size bytes s) ≡ size
length-row size n s bytes h l =
    length-slot size s bytes
      (let m : (s + 1) * size ≤ n * size = mul-le-mul_right size (omega arith) in omega arith)

pub length-parent :
    (n s : ℕ) (b : Bool) (above labels : Bytes)
    → s < n
    → length above ≡ n * hash_size
    → length labels ≡ n * hash_size
    → length (slot hash_size (if b then above else labels) s) ≡ hash_size
length-parent n s true above labels h a l = length-row hash_size n s above h a
length-parent n s false above labels h a l = length-row hash_size n s labels h l

nil-of_length : (rest : Bytes) → length rest ≡ 0 → rest ≡ []
nil-of_length [] h = refl
nil-of_length (x ∷ xs) h = absurd (omega arith)

pub put_labels-append :
    (n i : ℕ) (above labels : Bytes) (parents : List ℕ) (front rest : Bytes)
    → 0 < n
    → length above ≡ n * hash_size
    → length labels ≡ n * hash_size
    → length rest ≡ length parents * hash_size
    → put_labels n i above labels parents (length front) (front ++ rest)
      ≡ front ++ concat (labels_of n i above labels parents)
unfolding put_labels
put_labels-append n i above labels [] front rest pos a l h =
    ap (λ t. front ++ t) (nil-of_length rest h)
put_labels-append n i above labels (p ∷ parents) front rest pos a l h =
    let d : Bytes = slot hash_size (if ltb p (i * n) then above else labels) (p % n) in
    let size : length d ≡ hash_size =
      length-parent n (p % n) (ltb p (i * n)) above labels (omega arith) a l in
    let next : length front + hash_size ≡ length (front ++ d) =
      omega (arith, length-append front d) in
    let left = length-drop (length d) rest in
    rw (write_at-append front d rest, next)
      (put_labels-append n i above labels parents (front ++ d) (drop (length d) rest) pos a l
          (omega arith)
        ∙ append_assoc front d _)

pub length-labels_of :
    (n i : ℕ) (above labels : Bytes) (parents : List ℕ)
    → 0 < n
    → length above ≡ n * hash_size
    → length labels ≡ n * hash_size
    → length (concat (labels_of n i above labels parents)) ≡ length parents * hash_size
length-labels_of n i above labels [] pos a l = refl
length-labels_of n i above labels (p ∷ parents) pos a l =
    let d : Bytes = slot hash_size (if ltb p (i * n) then above else labels) (p % n) in
    let size : length d ≡ hash_size =
      length-parent n (p % n) (ltb p (i * n)) above labels (omega arith) a l in
    omega (
      arith,
      length-append d (concat (labels_of n i above labels parents)),
      length-labels_of n i above labels parents pos a l,
    )

-- The front of the buffer, with what was behind it.
pub length-copied :
    (id : Bytes) (count index : ℕ) (label : Bytes)
    → label_left_size id ≤ length label
    → length (copy_data label (id ∷ get_bytes 8 count ∷ get_bytes node_type_size index ∷ []))
      ≡ length label
length-copied id count index label h =
    let front : Bytes = front_of id count index in
    let size = length-front_of id count index in
    let left = length-drop (length front) label in
    let filled =
      copy_data-front label (id ∷ get_bytes 8 count ∷ get_bytes node_type_size index ∷ [])
        (omega arith) in
    rw filled (omega (arith, length-append front (drop (length front) label)))

-- With all parents, nothing of what the buffer held before is left.
pub put_labels-full :
    (n : ℕ) (id : Bytes) (count i index : ℕ) (above labels : Bytes) (parents : List ℕ)
    (label : Bytes)
    → 0 < n
    → length above ≡ n * hash_size
    → length labels ≡ n * hash_size
    → length label ≡ label_left_size id + length parents * hash_size
    → put_labels n i above labels parents
        (label_left_size id)
        (copy_data label (id ∷ get_bytes 8 count ∷ get_bytes node_type_size index ∷ []))
      ≡ front_of id count index ++ concat (labels_of n i above labels parents)
put_labels-full n id count i index above labels parents label pos a l h =
    let front : Bytes = front_of id count index in
    let size = length-front_of id count index in
    let left = length-drop (length front) label in
    let filled =
      copy_data-front label (id ∷ get_bytes 8 count ∷ get_bytes node_type_size index ∷ [])
        (omega arith) in
    rw filled (
      ap (λ t. put_labels n i above labels parents t (front ++ drop (length front) label))
        (sym size)
      ∙ put_labels-append n i above labels parents front (drop (length front) label) pos a l
          (omega arith))

-- The content for a node that has all its parents: nothing of what the buffer held before is left.
pub node_content-full :
    (n : ℕ) (id : Bytes) (count i : ℕ) (above labels : Bytes) (node : Node) (label : Bytes)
    → 0 < n
    → 0 < i
    → 0 < length node.parents
    → length above ≡ n * hash_size
    → length labels ≡ n * hash_size
    → length label ≡ label_left_size id + length node.parents * hash_size
    → node_content n id count i above labels node label
      ≡ front_of id count node.index ++ concat (labels_of n i above labels node.parents)
unfolding node_content no_parents
node_content-full n id count i above labels node label pos deep many a l h =
    let taken : (ltb 0 i && not (leb (length node.parents) 0)) ≡ true = ground arith in
    rw taken (put_labels-full n id count i node.index above labels node.parents label pos a l h)

pub length-node_content :
    (n : ℕ) (id : Bytes) (count : ℕ) (above labels : Bytes) (node : Node) (label : Bytes)
    → label_left_size id ≤ length label
    → length (node_content n id count 0 above labels node label) ≡ length label
unfolding node_content
length-node_content n id count above labels node label h = length-copied id count node.index label h
