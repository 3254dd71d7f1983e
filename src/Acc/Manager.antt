-- ===== src/Acc/Manager.antt =====
-- `MutiLevelAcc` of acc/muti_level_acc.go: its state, its snapshots and the insertion of elements.
-- A pointer into the tree, `Parent` or `Curr`, is the index of the node among its siblings, so that
-- a write through the pointer is a write to the tree.
pub mod Files
pub mod Proofs
pub mod Invariant
pub mod Walk
pub mod Insertion
pub mod Cases
pub mod First
pub mod Extension
pub mod Completeness
use cess_pos_demo.Common.{
  ℕ, zero, suc, ◌+◌, ◌-◌, ◌/◌, Bool, true, false, not, ◌&&◌, ◌||◌, List, [], ◌∷◌, ◌++◌, length, set,
  modify, last_index, get_elem?, Option, none, some, ltb, leb, ◌==◌, if◌then◌else◌, Run, ok, err,
  panic, nil_dereference, index_out_of_range, ◌>>=◌, or_panic,
}
use cess_pos_demo.BigInt.{Bytes, to_bytes}
use cess_pos_demo.Crypto.{Crypto}
use cess_pos_demo.Acc.Accumulator.{RsaKey, generate_acc, generate_witness}
use cess_pos_demo.Acc.Tree.{AccNode, SubAcc, Parent, Root, update_acc}
use Files.{AccData, Disk, read_acc_data, save_acc_data}

abbrev pub default_elems_num : ℕ
default_elems_num = 1024

pub data AccError : Type 0 where
  illegal_number update_occupied read_failed save_failed bad_index : AccError

-- The fields that `copy` copies.
pub record View : Type 0 where
  pub accs : Root
  pub key : RsaKey
  pub elem_nums : ℕ
  pub curr_count : ℕ
  pub curr : Option ℕ
  pub parent : Option ℕ

pub record MutiLevelAcc : Type 0 where
  pub view : View
  pub is_update : Bool
  pub snapshot : Option View
  pub disk : Disk

-- What a call that changes the state leaves, and the error that it returns.
abbrev pub Update : Type 0
Update = Run ⊥ (MutiLevelAcc × Option AccError)

-- `NewMutiLevelAcc`, behind the making of the directory
unfoldable pub new_muti_level_acc : RsaKey → Disk → MutiLevelAcc
new_muti_level_acc key disk = record {
  view = record {
    accs = record { value = to_bytes key.g; children = []; len = 0; wit = [] };
    key = key;
    elem_nums = 0;
    curr_count = 0;
    curr = none;
    parent = none;
  };
  is_update = false;
  snapshot = none;
  disk = disk;
}

last_parent : Root → Option Parent
last_parent root = elim (last_index root.len) [ none ↦ none | some i ↦ get_elem? root.children i ]

-- `copy`, on the empty struct that `createSnapshot` makes. Nodes are values here, so that the deep
-- copy of the tree is the tree itself; the pointers are set anew, to the last nodes.
unfoldable pub copy : View → View
unfolding last_parent
copy v = record v {
  parent = last_index v.accs.len;
  curr = elim (last_parent v.accs) [ none ↦ none | some p ↦ last_index p.len ];
}

unfoldable pub create_snapshot : MutiLevelAcc → MutiLevelAcc
create_snapshot s = record s { snapshot = some (copy s.view) }

-- `GetSnapshot`; the snapshot that is there is returned during an update and outside one.
unfoldable pub snapshot_or_new : MutiLevelAcc → Option View → MutiLevelAcc × View
unfolding create_snapshot
snapshot_or_new s (some v) = (s, v)
snapshot_or_new s none = (create_snapshot s, copy s.view)

unfoldable pub get_snapshot : MutiLevelAcc → MutiLevelAcc × View
unfolding snapshot_or_new
get_snapshot s = snapshot_or_new s s.snapshot

unfoldable pub set_update : MutiLevelAcc → Bool → MutiLevelAcc × Bool
unfolding create_snapshot
set_update s on =
    if s.is_update && on
    then (s, false)
    else if on
    then (record (create_snapshot s) { is_update = true }, true)
    else (record (create_snapshot s) { is_update = false }, true)

module _ ⦃c : Crypto⦄ where
  -- The values to which `addElements` appends: those of the current file, while it has room.
  unfoldable pub open_values : MutiLevelAcc → Run AccError (List Bytes)
  open_values s =
      if ltb 0 s.view.curr_count && ltb s.view.curr_count default_elems_num
      then elim (read_acc_data s.disk ((s.view.elem_nums - 1) / default_elems_num)) [
        | none ↦ err read_failed
        | some file ↦ ok file.values
      ]
      else ok []

  -- The sub-accumulator of a non-empty list of elements.
  unfoldable pub sub_acc_of : RsaKey → List Bytes → List Bytes → Run AccError SubAcc
  sub_acc_of key elems wits = do
    wit ← or_panic (get_elem? wits (length elems - 1)) index_out_of_range
    elem ← or_panic (get_elem? elems (length elems - 1)) index_out_of_range
    ok (record {
      value = generate_acc key wit (elem ∷ []);
      children = [];
      len = length elems;
      wit = [];
    })

  -- `addElements`
  unfoldable pub build_sub_acc : MutiLevelAcc → List Bytes → Run AccError (SubAcc × MutiLevelAcc)
  build_sub_acc s elems = do
    old ← open_values s
    let key = s.view.key
    let wits = generate_witness key.g key.n (old ++ elems)
    node ← sub_acc_of key (old ++ elems) wits
    let index = (s.view.elem_nums + length elems - 1) / default_elems_num
    elim (save_acc_data s.disk index (record { values = old ++ elems; wits = wits })) [
      | none ↦ err save_failed
      | some disk ↦ ok (node, record s { disk = disk })
    ]

  -- The case of `addSubAcc` for an empty accumulator.
  unfoldable pub first_sub_acc : View → SubAcc → View
  first_sub_acc v sub =
      let g = to_bytes v.key.g in
      let value = generate_acc v.key g (sub.value ∷ []) in
      record v {
        curr = some 0;
        curr_count = sub.len;
        parent = some 0;
        accs = record {
          value = generate_acc v.key g (value ∷ []);
          children =
              record { value = value; wit = g; children = record sub { wit = g } ∷ []; len = 1 }
              ∷ [];
          len = 1;
          wit = [];
        };
        elem_nums = v.elem_nums + sub.len;
      }

  -- The three other cases: replace the current sub-accumulator, append to the current parent, or
  -- begin a new parent. A total that `ElemNums += subAcc.Len - acc.CurrCount` would make negative
  -- stops at 0; the file of the current sub-accumulator holds `CurrCount` elements at least.
  unfoldable pub place_sub_acc : View → ℕ → Parent → SubAcc → Run ⊥ View
  place_sub_acc v at p sub =
      let count = length p.children in
      if ltb 0 v.curr_count && ltb v.curr_count default_elems_num
      then (if count == 0
          then panic index_out_of_range
          else ok (record v {
            elem_nums = v.elem_nums + sub.len - v.curr_count;
            accs = record v.accs {
              children =
                  set v.accs.children at (record p { children = set p.children (count - 1) sub });
            };
            curr = some (count - 1);
            curr_count = sub.len;
          }))
      else if leb (count + 1) default_elems_num
      then ok (record v {
        elem_nums = v.elem_nums + sub.len;
        accs = record v.accs {
          children = set v.accs.children at (record p { children = p.children ++ sub ∷ [] });
        };
        curr = some count;
        curr_count = sub.len;
      })
      else ok (record v {
        elem_nums = v.elem_nums + sub.len;
        accs = record v.accs {
          children =
              v.accs.children
              ++ record { value = []; wit = to_bytes v.key.g; children = sub ∷ []; len = 0 } ∷ [];
        };
        parent = some (length v.accs.children);
        curr = some 0;
        curr_count = sub.len;
      })

  -- `acc.updateAcc(acc.Parent)`, then `acc.updateAcc(acc.Accs)`; a nil parent is skipped.
  unfoldable pub refresh : View → View
  unfolding update_acc
  refresh v =
      let children : List Parent = elim v.parent [
        | none ↦ v.accs.children
        | some at ↦ modify (update_acc v.key) at v.accs.children
      ] in
      record v { accs = update_acc v.key (record v.accs { children = children }) }

  unfoldable pub add_sub_acc : View → SubAcc → Run ⊥ View
  add_sub_acc v sub = if v.curr_count == 0 then ok (first_sub_acc v sub) else do
    at ← or_panic v.parent nil_dereference
    p ← or_panic (get_elem? v.accs.children at) nil_dereference
    placed ← place_sub_acc v at p sub
    ok (refresh placed)

  -- `AddElements` behind its call of `addElements`; `setUpdate(false)` is deferred to every return.
  unfoldable pub finish_add : MutiLevelAcc → Run AccError (SubAcc × MutiLevelAcc) → Update
  finish_add s (panic p) = panic p
  finish_add s (err e) = ok ((set_update s false).0, some e)
  finish_add s (ok (sub, s')) = do
    v ← add_sub_acc s'.view sub
    ok ((set_update (record s' { view = v }) false).0, none)

  unfoldable pub add_granted : MutiLevelAcc → List Bytes → Update
  unfolding finish_add
  add_granted s elems = finish_add s (build_sub_acc s elems)

  unfoldable pub add_elements : MutiLevelAcc → List Bytes → Update
  add_elements s elems =
      let lens = length elems in
      let count = s.view.curr_count in
      if lens == 0 || ltb count default_elems_num && ltb default_elems_num (lens + count)
      then ok (s, some illegal_number)
      else (let (s', granted) = set_update s true in
          if not granted then ok (s', some update_occupied) else add_granted s' elems)
