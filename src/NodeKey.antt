-- ===== src/NodeKey.antt =====
-- src/node_key.rs: the node's key and its file. secp256k1, the hex codec and `str::trim` are
-- parameters, with the type of the file's text.
pub mod Restart
use reth_sentry_node.Prelude.{
  ℕ, Bool, true, false, not, ◌≡◌, Option, none, some, List, Result, ok, err, ◌>>=◌, ◌>>◌, reject_if,
  if◌then◌else◌,
}

pub record KeyCodec (SecretKey Text : Type 0) : Type 0 where
  pub from_slice : List ℕ → Option SecretKey
  pub secret_bytes : SecretKey → List ℕ
  pub decode_hex : Text → Option (List ℕ)
  pub encode_hex : List ℕ → Text
  pub trim : Text → Text

-- A key's bytes are that key, and hex digits decode to what they encode and have no space to trim.
pub record IsKeyCodec {SecretKey Text : Type 0} (codec : KeyCodec SecretKey Text) : Type 0 where
  pub from_slice-secret_bytes : (k : SecretKey) → codec.from_slice (codec.secret_bytes k) ≡ some k
  pub decode_hex-encode_hex : (b : List ℕ) → codec.decode_hex (codec.encode_hex b) ≡ some b
  pub trim-encode_hex : (b : List ℕ) → codec.trim (codec.encode_hex b) ≡ codec.encode_hex b

-- The key's file, none if there is none, and how the disk answers: whether a read, the directories and
-- a write succeed, and what a failed write leaves.
pub record Disk (Text : Type 0) : Type 0 where
  pub file : Option Text
  pub reads : Bool
  pub makes_dirs : Bool
  pub writes : Bool
  pub torn : Option Text

pub data KeyError : Type 0 where
  unreadable bad_hex bad_key no_directory unwritten : KeyError

module _ {SecretKey Text : Type 0} (codec : KeyCodec SecretKey Text) where
  unfoldable pub to_bytes : Option (List ℕ) → Result KeyError (List ℕ)
  to_bytes none = err bad_hex
  to_bytes (some b) = ok b

  unfoldable pub to_key : Option SecretKey → Result KeyError SecretKey
  to_key none = err bad_key
  to_key (some k) = ok k

  -- The branch of an existing file.
  unfoldable pub load : Disk Text → Text → Result KeyError SecretKey
  load disk hex = do
    reject_if (not disk.reads) unreadable
    bytes ← to_bytes (codec.decode_hex (codec.trim hex))
    to_key (codec.from_slice bytes)

  -- The branch without a file: `key` is what `rng_secret_key` returns.
  unfoldable pub generate : Disk Text → SecretKey → Result KeyError SecretKey × Disk Text
  generate disk key =
      if disk.makes_dirs
      then (if disk.writes
          then (ok key, record disk { file = some (codec.encode_hex (codec.secret_bytes key)) })
          else (err unwritten, record disk { file = disk.torn }))
      else (err no_directory, disk)

  unfoldable pub load_or_generate : Disk Text → SecretKey → Result KeyError SecretKey × Disk Text
  load_or_generate disk key = elim disk.file [
    | none ↦ generate disk key
    | some hex ↦ (load disk hex, disk)
  ]
