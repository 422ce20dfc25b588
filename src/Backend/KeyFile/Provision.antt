-- ===== src/Backend/KeyFile/Provision.antt =====
-- ProvisionSoftwareKey of internal/backend/software_file.go and the lock of software_lock_unix.go: the files
-- at a key's canonical path, and every point at which the system may fail or the context end.
use cosmosigner.Prelude.{
  ℕ, ◌==◌, Bytes, Bool, true, false, not, Option, none, some, List, [], ◌∷◌, length, take, Result,
  ok, err, fail_if, or_fail, if◌then◌else◌,
}
use cosmosigner.Prelude.Exec.{Exec, pure, lift, gets, check, modify, skip, ◌>>=◌, ◌>>◌}
use cosmosigner.Backend.KeyFile.{
  KeyFileError, unopened, uninspected, not_locked, cancelled, claimed, unclosed, exists,
  not_encoded, no_temporary, no_permissions, not_written, short_write, not_synced, not_published,
  directory_not_synced, not_unlocked, PrivKey, FilePvKey, KeyCodec, FileInfo, validate_file,
}

-- The contents of the key file, of the temporary file and of the binding marker.
pub record Files : Type 0 where
  pub key : Option Bytes
  pub temporary : Option Bytes
  pub marker : Option Bytes

abbrev pub Filing : Type 0 → Type 0
Filing A = Exec KeyFileError Files A

-- One turn of the wait for the lock: whether the context has ended before it, the answer of flock, and
-- whether the context ends in the pause after it.
pub data Flock : Type 0 where
  granted held refused : Flock

pub record LockTurn : Type 0 where
  pub ended_before : Bool
  pub flock : Flock
  pub ends_after : Bool

-- acquireSoftwareKeyLock once the lock file is open; the context ends after the last turn.
unfoldable pub wait_for_lock : List LockTurn → Result KeyFileError (Unit {0})
wait_for_lock [] = err cancelled
wait_for_lock (t ∷ turns) =
    let later = wait_for_lock turns in
    if t.ended_before then err cancelled else elim t.flock [
      | granted ↦ ok tt
      | refused ↦ err not_locked
      | held ↦ if t.ends_after then err cancelled else later
    ]

-- acquireSoftwareKeyLock
unfoldable pub acquire_lock : Bool → List LockTurn → Result KeyFileError (Unit {0})
acquire_lock unopenable turns = if unopenable then err not_locked else wait_for_lock turns

-- What happens in a provisioning. `written` is the number of bytes that Write wrote, `fresh` the key that
-- CometBFT generates.
pub record ProvisionEnv : Type 0 where
  pub path : Result KeyFileError Bytes
  pub lock : Result KeyFileError (Unit {0})
  pub unlock_fails : Bool
  pub ended_locked : Bool
  pub overwrite : Bool
  pub marker_unreadable : Bool
  pub key_unopened : Bool
  pub key_info : FileInfo
  pub key_unclosed : Bool
  pub fresh : PrivKey
  pub fresh_public : Bytes
  pub create_fails : Bool
  pub chmod_fails : Bool
  pub written : ℕ
  pub write_fails : Bool
  pub sync_fails : Bool
  pub close_fails : Bool
  pub ended_written : Bool
  pub rename_fails : Bool
  pub directory_unopened : Bool
  pub directory_sync_fails : Bool
  pub directory_close_fails : Bool
  pub remove_fails : Bool

abbrev pub failing : Bool → KeyFileError → Filing (Unit {0})
failing b e = lift (fail_if b e)

abbrev pub is_some : Option Bytes → Bool
is_some none = false
is_some (some a) = true

-- os.Rename of the temporary file to the key's path.
abbrev pub publish : Files → Files
publish s = record s { key = s.temporary; temporary = none }

abbrev pub fresh_key : ProvisionEnv → FilePvKey
fresh_key e = record { priv_key = some e.fresh; pub_key = some e.fresh_public }

module _ (e : ProvisionEnv) where
  -- os.Remove of the temporary file, whose error is dropped.
  abbrev pub remove_temporary : Files → Files
  remove_temporary s = if e.remove_fails then s else record s { temporary = none }

  abbrev pub removed :
      Result KeyFileError (Unit {0}) × Files → Result KeyFileError (Unit {0}) × Files
  removed (r, s) = (r, remove_temporary s)

  -- What a deferred removal does.
  unfoldable pub removing : Filing (Unit {0}) → Filing (Unit {0})
  removing m s = removed (m s)

  -- The temporary file gets its contents.
  unfoldable pub fill : Bytes → Filing (Unit {0})
  fill content =
      failing e.chmod_fails no_permissions
      >> modify (λ s. record s { temporary = some (take e.written content) })
      >> failing e.write_fails not_written
      >> failing (not (e.written == length content)) short_write
      >> failing e.sync_fails not_synced
      >> failing e.close_fails unclosed

  unfoldable pub sync_directory : Filing (Unit {0})
  sync_directory =
      failing e.directory_unopened directory_not_synced
      >> failing e.directory_sync_fails directory_not_synced
      >> failing e.directory_close_fails directory_not_synced

  unfoldable pub write_body : Bytes → Filing (Unit {0})
  write_body content =
      fill content
      >> failing e.ended_written cancelled
      >> failing e.rename_fails not_published
      >> modify publish
      >> sync_directory

  -- writeSoftwareKeyAtomically
  unfoldable pub write_atomically : Bytes → Filing (Unit {0})
  write_atomically content =
      failing e.create_fails no_temporary
      >> modify (λ s. record s { temporary = some [] })
      >> removing (write_body content)

  unfoldable pub write_then_answer : Bytes → Filing Bytes
  write_then_answer content = write_atomically content >> pure e.fresh_public

  -- The key file that is there is replaced only where that is asked for.
  unfoldable pub check_existing : Bool → Filing (Unit {0})
  check_existing found =
      if found
      then lift (validate_file e.key_info)
        >> failing e.key_unclosed unclosed
        >> failing (not e.overwrite) exists
      else skip

  unfoldable pub check_replaceable : Filing (Unit {0})
  check_replaceable =
      failing e.marker_unreadable uninspected
      >> check (λ s. is_some s.marker) claimed
      >> failing e.key_unopened unopened
      >> gets (λ s. is_some s.key)
      >>= check_existing

  unfoldable pub replace : KeyCodec → Filing Bytes
  replace x =
      check_replaceable >> lift (or_fail (x.encode (fresh_key e)) not_encoded) >>= write_then_answer

  abbrev pub unlocked : Result KeyFileError Bytes × Files → Result KeyFileError Bytes × Files
  unlocked (ok p, s) = (if e.unlock_fails then err not_unlocked else ok p, s)
  unlocked (err x, s) = (err x, s)

  unfoldable pub unlocking : Filing Bytes → Filing Bytes
  unlocking m s = unlocked (m s)

  -- withSoftwareKeyLock
  unfoldable pub with_lock : Filing Bytes → Filing Bytes
  with_lock operation = lift e.lock >> unlocking (failing e.ended_locked cancelled >> operation)

  -- ProvisionSoftwareKey
  unfoldable pub provision : KeyCodec → Filing Bytes
  provision x = lift e.path >>= λ p. with_lock (replace x)
