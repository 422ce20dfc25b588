-- ===== src/Backend/FileBinding.antt =====
-- internal/backend/binding_file.go: the cluster marker beside a key file. The marker's path holds a
-- file's contents or nothing; other processes may create the marker at any moment.
use cosmosigner.Prelude.{
  Bytes, bytes_eq, Bool, not, Option, none, some, Result, ok, err, fail_if, if◌then◌else◌,
}
use cosmosigner.Prelude.Int.{ℤ, pos, eqb_ℤ}
use cosmosigner.ClusterId
use cosmosigner.Backend.{
  BindingError, unclaimed, corrupt, unreadable, unsupported, cancelled, io_failed,
  require_claim_owner, valid_id,
}

-- softwareBindingRecord
pub record Marker : Type 0 where
  pub version : ℤ
  pub cluster_id : Bytes
  pub public_key : Bytes

-- encoding/json on a marker: its strict decoding of a whole file, and its encoding with the newline.
pub record MarkerCodec : Type 0 where
  pub decode : Bytes → Option Marker
  pub encode : Marker → Bytes

abbrev pub Disk : Type 0
Disk = Option Bytes

-- The fields that a claim reads; `public_key` is the base64 text of the key.
pub record FileBinding : Type 0 where
  pub has_path : Bool
  pub public_key : Bytes

-- What happens in one read: the context before and after it, and whether the file can be read.
pub record ReadEnv : Type 0 where
  pub cancelled_before : Bool
  pub readable : Bool
  pub cancelled_after : Bool

unfoldable pub read_marker : FileBinding → Option Marker → Result BindingError Bytes
read_marker s none = err corrupt
read_marker s (some m) =
    if not (eqb_ℤ m.version (pos 1)) then err corrupt else elim (ClusterId.validate m.cluster_id) [
      | err e ↦ err corrupt
      | ok u ↦ if not (bytes_eq m.public_key s.public_key) then err corrupt else ok m.cluster_id
    ]

unfoldable pub read_file : MarkerCodec → FileBinding → ReadEnv → Disk → Result BindingError Bytes
read_file x s e none = if not e.readable then err unreadable else err unclaimed
read_file x s e (some content) =
    if not e.readable
    then err unreadable
    else if e.cancelled_after
    then err cancelled
    else read_marker s (x.decode content)

-- read
unfoldable pub read : MarkerCodec → FileBinding → ReadEnv → Disk → Result BindingError Bytes
read x s e d =
    if not s.has_path
    then err unsupported
    else if e.cancelled_before
    then err cancelled
    else read_file x s e d

-- What happens during one claim. `prepared` is an error of the temporary file, up to the link;
-- `others` is what other processes do to the marker before the link.
pub record ClaimEnv : Type 0 where
  pub lock : Result BindingError (Unit {0})
  pub precheck : Result BindingError (Unit {0})
  pub first_read : ReadEnv
  pub prepared : Result BindingError (Unit {0})
  pub others : Disk → Disk
  pub link_fails : Bool
  pub cleanup : Result BindingError (Unit {0})
  pub second_read : ReadEnv
  pub sync_published : Result BindingError (Unit {0})
  pub sync_directory : Result BindingError (Unit {0})

-- errors.Join, by its first error.
abbrev pub join :
    Result BindingError (Unit {0}) → Result BindingError (Unit {0}) → Result BindingError (Unit {0})
join (ok u) r = r
join (err e) r = err e

abbrev pub Claimed : Type 0
Claimed = Result BindingError (Unit {0}) × Disk

unfoldable pub own_marker : FileBinding → Bytes → Marker
own_marker s id = record { version = pos 1; cluster_id = id; public_key = s.public_key }

abbrev pub owned_by :
    Bytes
    → Result BindingError (Unit {0})
    → Result BindingError Bytes
    → Result BindingError (Unit {0})
owned_by id synced (err e) = err e
owned_by id synced (ok owner) = join synced (require_claim_owner id owner)

-- link(2) creates the marker, or finds one, or fails otherwise. In the second case the marker that is there
-- decides.
unfoldable pub publish : MarkerCodec → FileBinding → ClaimEnv → Bytes → Disk → Claimed
publish x s e id none =
    if e.link_fails
    then (err io_failed, none)
    else (join e.cleanup e.sync_directory, some (x.encode (own_marker s id)))
publish x s e id (some content) = if e.link_fails then (err io_failed, some content) else (
  join e.cleanup (owned_by id e.sync_published (read x s e.second_read (some content))),
  some content,
)

abbrev pub after_error : (BindingError → Claimed) → BindingError → Claimed → Claimed
after_error k unclaimed fresh = fresh
after_error k e fresh = k e

abbrev pub attempt : Result BindingError (Unit {0}) → Disk → Claimed → Claimed
attempt (ok u) d rest = rest
attempt (err e) d rest = (err e, d)

-- The claim once its first read has answered.
unfoldable pub claim_after_read :
    MarkerCodec → FileBinding → ClaimEnv → Bytes → Disk → Result BindingError Bytes → Claimed
claim_after_read x s e id d (ok owner) = (owned_by id e.sync_published (ok owner), d)
claim_after_read x s e id d (err b) =
    after_error (λ c. (err c, d)) b (attempt e.prepared d (publish x s e id (e.others d)))

-- claim
unfoldable pub claim : MarkerCodec → FileBinding → ClaimEnv → Bytes → Disk → Claimed
claim x s e id d = attempt (fail_if (not s.has_path) unsupported) d (
    attempt (valid_id id) d (
      attempt e.lock d
        (attempt e.precheck d (claim_after_read x s e id d (read x s e.first_read d)))))
