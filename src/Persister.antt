-- ===== src/Persister.antt =====
-- internal/store/persister.go: the storage that a DataStore runs on, as an interface. Each method
-- takes the storage's state; one that writes returns the new state beside its error, since a failed
-- write may have left something behind.
pub mod Contract
pub mod InMemory
use distributed_kv_data_stor.Prelude.{Str, Bool, Option, List, Result}
use distributed_kv_data_stor.Model.{DataItem}

-- ErrRestoreIncomplete, ErrWritesHalted, and every other error.
pub data StorageError : Type 0 where
  restore_incomplete writes_halted storage_failed : StorageError

-- The items of a key with `found`.
pub record Found (V : Type 0) : Type 0 where
  pub items : List (DataItem V)
  pub found : Bool

pub record Persister (V : Type 0) : Type 1 where
  pub State : Type 0
  pub put : Str → DataItem V → State → Option StorageError × State
  pub get_all : Str → State → Result StorageError (Found V)
  pub restore : Str → List (DataItem V) → State → Option StorageError × State
  pub keys : State → Result StorageError (List Str)
