-- ===== src/Backend/KeyFile/Loaded.antt =====
-- loadSoftwarePrivateKey of internal/backend/software_file.go on what ProvisionSoftwareKey wrote.
use cosmosigner.Prelude.{◌≡◌, ap, ◌∙◌, Bytes, bytes_eq_refl, false, some, ok}
use cosmosigner.Prelude.Exec.{landed_ok}
use cosmosigner.Backend.KeyFile.{
  FilePvKey, KeyCodec, FileInfo, validate_file, check_public, derive_public_key, checked_key,
  load_private_key,
}
use cosmosigner.Backend.KeyFile.Provision.{Files, ProvisionEnv, fresh_key, provision}
use cosmosigner.Backend.KeyFile.Provisioned.{IsWhole, Provisioned, provision-Lands}

-- A key file with the public key that its private key derives is consistent.
fresh_checked :
    (x : KeyCodec) (e : ProvisionEnv)
    → derive_public_key x e.fresh ≡ ok e.fresh_public
    → checked_key x (fresh_key e) ≡ ok e.fresh
unfolding checked_key check_public
fresh_checked x e derives = rw (derives, bytes_eq_refl e.fresh_public)

load_text :
    (x : KeyCodec) (i : FileInfo) (text : Bytes) (f : FilePvKey)
    → validate_file i ≡ ok tt
    → x.decode text ≡ some f
    → load_private_key x false i (some text) ≡ checked_key x f
unfolding load_private_key
load_text x i text f valid decodes = rw (valid, decodes)

-- After a provisioning that returned a public key, where JSON reads back what it wrote, the new private
-- key derives that public key and the file passes the checks of its kind and its links, the software
-- backend loads the new private key from the key's path.
pub provision_then_load :
    (x : KeyCodec) (e : ProvisionEnv) (s : Files) (p : Bytes) (i : FileInfo)
    (reads_back : (f : FilePvKey) (text : Bytes) → x.encode f ≡ some text → x.decode text ≡ some f)
    (derives : derive_public_key x e.fresh ≡ ok e.fresh_public) (valid : validate_file i ≡ ok tt)
    (returned : (provision e x s).0 ≡ ok p)
    → load_private_key x false i (provision e x s).1.key ≡ ok e.fresh
provision_then_load x e s p i reads_back derives valid returned = loaded (
    landed_ok (Provisioned x e s) (IsWhole x e s) (provision e x s) p (provision-Lands x e s)
      returned)
  where
    loaded :
        Provisioned x e s p (provision e x s).1
        → load_private_key x false i (provision e x s).1.key ≡ ok e.fresh
    loaded (same, ((text, encodes, holds), may, m)) =
        ap (load_private_key x false i) holds
        ∙ load_text x i text (fresh_key e) valid (reads_back (fresh_key e) text encodes)
        ∙ fresh_checked x e derives
