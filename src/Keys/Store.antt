-- ===== src/Keys/Store.antt =====
-- `KeyStore` of crypto/keys.py: several servers that start at once over one directory. Each operation
-- on the file system is one step, and the operating system may fail it.
pub mod Race
pub mod Nearer
pub mod Progress
pub mod Permissions
use agent_oauth_from_scratch.Shared.{
  ℕ, zero, suc, String, Bool, true, false, Option, none, some, List, [], ◌∷◌, ◌<>◌, if◌then◌else◌,
}
use agent_oauth_from_scratch.Outcome.{Failure, Outcome, ok, raised, key_store, uncaught, ◌>>=◌}
use agent_oauth_from_scratch.Models.{SigningKey}
use agent_oauth_from_scratch.Platform.{Platform, PrivateKey}
use agent_oauth_from_scratch.Keys.{kid_for}

-- What `serialization.load_pem_private_key` returns.
pub data LoadedKey : Type 0 where
  p256 : PrivateKey → LoadedKey
  other_curve : LoadedKey
  not_elliptic : LoadedKey

-- The parts of `cryptography`, hashlib and os that the store calls.
pub record KeyFormat : Type 0 where
  -- `none` for a `TypeError` or a `ValueError`
  pub load_pem : String → Option LoadedKey
  pub private_bytes : PrivateKey → String
  pub sha256 : String → List ℕ
  -- `os.name == "posix"`
  pub posix : Bool
  -- the permissions of a directory that `mkdir` makes
  pub mkdir_mode : ℕ

-- `_validate_private_key`
unfoldable pub validate_private_key : LoadedKey → Outcome PrivateKey
validate_private_key (p256 key) = ok key
validate_private_key other_curve =
    raised (key_store "configured signing key must use the P-256 curve for ES256")
validate_private_key not_elliptic =
    raised (key_store "configured signing key must be an EC private key")

-- Where `load_or_create` stands.
pub data Stage : Type 0 where
  -- before the directory is made
  begin : Stage
  -- the directory is there, and is to be restricted
  made : Stage
  -- before the key file is read
  reading : Stage
  -- there was no key file
  missing : Stage
  -- a key is generated, and its temporary file is made and still empty
  temporary : PrivateKey → Stage
  -- the temporary file is written and synchronised
  written : PrivateKey → Stage
  -- another server has published its key
  lost : Stage
  -- the temporary file is to be removed, and then the outcome stands
  clearing : Outcome PrivateKey → Stage
  returned : PrivateKey → Stage
  failed : Failure → Stage

-- 0o700
abbrev pub owner_only : ℕ
owner_only = 448

-- What the next operation gives: an `OSError`, or success, with the key that a generator draws.
pub data Answer : Type 0 where
  os_error : Answer
  success : PrivateKey → Answer

module _ (format : KeyFormat) where
  parsed : Option LoadedKey → Outcome PrivateKey
  unfolding validate_private_key
  parsed none = raised (key_store "configured signing key is not a valid unencrypted PEM key")
  parsed (some key) = validate_private_key key

  -- `_load_private_key`, once the bytes are read
  unfoldable pub load_private_key : String → Outcome PrivateKey
  unfolding parsed
  load_private_key pem = parsed (format.load_pem pem)

  -- The `SigningKey` that a store returns for a private key.
  unfoldable pub signing_key : Platform → PrivateKey → Outcome SigningKey
  signing_key platform key = do
    kid ← kid_for platform format.sha256 key
    ok (record { private_key = key; kid = kid })

finished : Outcome PrivateKey → Stage
finished (ok key) = returned key
finished (raised e) = failed e

module _ (format : KeyFormat) (private_key_path : String) where
  -- A read of the key file, which nothing removes.
  read_or : Stage → Option String → Stage
  unfolding finished
  read_or absent none = absent
  read_or absent (some pem) = finished (load_private_key format pem)

  could_not_read : Failure
  could_not_read = key_store ("could not read signing key: " <> private_key_path)

  could_not_persist : Failure
  could_not_persist = key_store ("could not persist signing key: " <> private_key_path)

  -- What the loser of the race reads, behind `except OSError`.
  read_published : Option String → Outcome PrivateKey
  unfolding could_not_persist
  read_published none = raised could_not_persist
  read_published (some pem) = load_private_key format pem

  -- `os.link`: publish if absent
  link : PrivateKey → Option String → Stage × Option String
  link key none = (clearing (ok key), some (format.private_bytes key))
  link key (some pem) = (lost, some pem)

  -- After `mkdir`; the directory is restricted on POSIX hosts only.
  entered : Stage
  entered = if format.posix then made else reading

  -- One operation of one server, on the contents of the key file.
  unfoldable pub advance : Answer → Stage → Option String → Stage × Option String
  unfolding read_or read_published link finished could_not_read could_not_persist entered
  advance os_error begin file = (failed uncaught, file)
  advance (success drawn) begin file = (entered, file)
  advance os_error made file = (failed uncaught, file)
  advance (success drawn) made file = (reading, file)
  advance os_error reading file = (failed could_not_read, file)
  advance (success drawn) reading file = (read_or missing file, file)
  advance os_error missing file = (failed uncaught, file)
  advance (success drawn) missing file = (temporary drawn, file)
  advance os_error (temporary key) file = (clearing (raised could_not_persist), file)
  advance (success drawn) (temporary key) file = (written key, file)
  advance os_error (written key) file = (clearing (raised could_not_persist), file)
  advance (success drawn) (written key) file = link key file
  advance os_error lost file = (clearing (raised could_not_read), file)
  advance (success drawn) lost file = (clearing (read_published file), file)
  advance os_error (clearing outcome) file = (failed uncaught, file)
  advance (success drawn) (clearing outcome) file = (finished outcome, file)
  advance answer (returned key) file = (returned key, file)
  advance answer (failed e) file = (failed e, file)

  -- The same operation on the permissions of the directory; `none` is no directory.
  -- `mkdir(exist_ok=True)` leaves a directory that is there, and
  -- `_restrict_directory_permissions` gives it to the owner alone.
  unfoldable pub mode_after : Answer → Stage → Option ℕ → Option ℕ
  mode_after (success drawn) begin none = some format.mkdir_mode
  mode_after (success drawn) made mode = some owner_only
  mode_after _ _ mode = mode

  -- `load`: the key file is read and nothing is created; `FileNotFoundError` passes through
  unfoldable pub load : Answer → Option String → Outcome PrivateKey
  unfolding could_not_read
  load os_error file = raised could_not_read
  load (success drawn) none = raised uncaught
  load (success drawn) (some pem) = load_private_key format pem
