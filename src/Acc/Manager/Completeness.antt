-- ===== src/Acc/Manager/Completeness.antt =====
-- The proof that `AddElementsAndProof` makes is one that `VerifyInsertUpdate` accepts.
use cess_pos_demo.Common.{
  ℕ, ◌+◌, ◌-◌, ◌/◌, List, ◌++◌, some, length, if◌then◌else◌, true, false, ◌==◌,
}
use cess_pos_demo.BigInt.{Bytes}
use cess_pos_demo.Crypto.{Crypto}
use cess_pos_demo.Acc.Accumulator.{generate_witness}
use cess_pos_demo.Acc.Manager.{View, MutiLevelAcc, default_elems_num, copy}
use cess_pos_demo.Acc.Manager.Files.{AccData, Disk}
use cess_pos_demo.Acc.Manager.Invariant.{IsReady}
use cess_pos_demo.Acc.Manager.Extension.{CanAdd}

abbrev after_update : View → Disk → MutiLevelAcc
after_update v d = record { view = v; is_update = false; snapshot = some (copy v); disk = d }

abbrev in_update : MutiLevelAcc → MutiLevelAcc
in_update s = record {
  view = s.view;
  is_update = true;
  snapshot = some (copy s.view);
  disk = s.disk;
}

abbrev with_snapshot : MutiLevelAcc → MutiLevelAcc
with_snapshot s = record s { snapshot = some (copy s.view) }

-- The records that the two calls below end in.
module _ ⦃c : Crypto⦄ (s : MutiLevelAcc) (ready : IsReady s) (elems : List Bytes)
    (can : CanAdd s elems) where
  open s.view use {key as key}

  abbrev index : ℕ
  index = (s.view.elem_nums + length elems - 1) / default_elems_num

  abbrev file : List Bytes → AccData
  file old = record { values = old ++ elems; wits = generate_witness key.g key.n (old ++ elems) }

  abbrev written : List Bytes → Disk
  written old = record s.disk {
    files = λ i. if i == index then some (file old) else s.disk.files i;
  }
