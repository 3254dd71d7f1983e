-- ===== src/Acc/Manager/Files.antt =====
-- The files of the sub-accumulators, `sub-acc-<index>`. `saveAccData` writes the values and
-- witnesses as JSON and `readAccData` reads them back. Which writes fail is the environment's choice.
use cess_pos_demo.Common.{ℕ, Bool, List, Option, none, some, if◌then◌else◌, ◌==◌, ltb}
use cess_pos_demo.BigInt.{Bytes}

pub record AccData : Type 0 where
  pub values : List Bytes
  pub wits : List Bytes

pub record Disk : Type 0 where
  pub files : ℕ → Option AccData
  pub write_fails : ℕ → Bool

unfoldable pub read_acc_data : Disk → ℕ → Option AccData
read_acc_data d index = d.files index

unfoldable pub save_acc_data : Disk → ℕ → AccData → Option Disk
save_acc_data d index file =
    if d.write_fails index
    then none
    else some (record d { files = λ i. if i == index then some file else d.files i })

-- `deleteAccData` removes every file from `last` on.
unfoldable pub delete_acc_data : Disk → ℕ → Disk
delete_acc_data d last = record d { files = λ i. if ltb i last then d.files i else none }
