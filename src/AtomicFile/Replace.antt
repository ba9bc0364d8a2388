-- ===== src/AtomicFile/Replace.antt =====
-- What WriteFile leaves behind on every path.
use timich_agent.Base.{◌≡◌, Bool, true, ◌&&◌, none, some, if◌then◌else◌, ok, arith}
use timich_agent.AtomicFile.{Directory, Syscalls, whole, write_file}

-- Every call up to the rename succeeds.
unfoldable pub replaces : Syscalls → Bool
replaces os = os.create_temp && os.chmod && os.write && os.sync && os.close && os.rename

-- Every call up to the sync of the directory succeeds.
unfoldable pub completes : Syscalls → Bool
unfolding replaces
completes os = replaces os && os.open_directory && os.sync_directory

module _ {ℓ} {A : Type ℓ} (os : Syscalls) (d : Directory A) (raw : A) where
  -- The target holds all of the new bytes if every call up to the rename succeeded, and is untouched
  -- otherwise.
  pub write_file-replaces :
      (write_file os d raw).0.file ≡ (if replaces os then some (whole raw) else d.file)
  unfolding write_file replaces
  write_file-replaces = ground arith

  pub write_file_succeeds :
      ((write_file os d raw).1 ≡ ok tt → completes os ≡ true)
      × (completes os ≡ true → (write_file os d raw).1 ≡ ok tt)
  unfolding write_file completes
  write_file_succeeds = ground arith

  -- No temporary file is left if its removal succeeds.
  pub write_file_removes_temp :
      os.remove ≡ true → d.temp ≡ none → (write_file os d raw).0.temp ≡ none
  unfolding write_file
  write_file_removes_temp h e = ground arith
