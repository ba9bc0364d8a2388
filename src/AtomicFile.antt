-- ===== src/AtomicFile.antt =====
-- internal/atomicfile/write.go: WriteFile writes a temporary file beside the target and renames it
-- into place. The outcome of each system call is an argument.
pub mod Replace
use timich_agent.Base.{Bool, true, false, Option, none, some, if◌then◌else◌, Result, ok, err, not}

-- What a file holds: part of the bytes to be written, or all of the bytes that `A` stands for.
pub data Content {ℓ} (A : Type ℓ) : Type ℓ where
  partial : Content A
  whole : A → Content A

-- The target and the temporary file of the call.
pub record Directory {ℓ} (A : Type ℓ) : Type ℓ where
  pub file : Option (Content A)
  pub temp : Option (Content A)

-- Which of the calls succeed.
pub record Syscalls : Type 0 where
  pub create_temp : Bool
  pub chmod : Bool
  pub write : Bool
  pub sync : Bool
  pub close : Bool
  pub rename : Bool
  pub open_directory : Bool
  pub sync_directory : Bool
  pub remove : Bool

pub data WriteError : Type 0 where
  create_failed chmod_failed write_failed sync_failed close_failed rename_failed : WriteError
  open_directory_failed sync_directory_failed : WriteError

module _ {ℓ} {A : Type ℓ} where
  -- The deferred `os.Remove(tempPath)`, whose error is dropped.
  unfoldable pub clean_up : Syscalls → Directory A → Directory A
  clean_up os d = if os.remove then record d { temp = none } else d

  unfoldable pub write_file :
      Syscalls → Directory A → A → Directory A × Result WriteError (Unit {0})
  unfolding clean_up
  write_file os d raw =
      let created = record d { temp = some partial } in
      let filled = record d { temp = some (whole raw) } in
      let renamed = record d { file = some (whole raw); temp = none } in
      if not os.create_temp
      then (d, err create_failed)
      else if not os.chmod
      then (clean_up os created, err chmod_failed)
      else if not os.write
      then (clean_up os created, err write_failed)
      else if not os.sync
      then (clean_up os filled, err sync_failed)
      else if not os.close
      then (clean_up os filled, err close_failed)
      else if not os.rename
      then (clean_up os filled, err rename_failed)
      else if not os.open_directory
      then (renamed, err open_directory_failed)
      else if not os.sync_directory
      then (renamed, err sync_directory_failed)
      else (renamed, ok tt)
