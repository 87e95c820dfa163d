-- ===== src/Tests/NodeKey.antt =====
-- Tests of src/node_key.rs: a first start without a file, and a later one. A key is its bytes, and a text
-- the bytes that it encodes.
use reth_sentry_node.Prelude.{ℕ, ◌≡◌, refl, true, none, some, List, [], ◌∷◌, ok}
use reth_sentry_node.NodeKey.{KeyCodec, IsKeyCodec, Disk, generate, load_or_generate}
use reth_sentry_node.NodeKey.Restart.{load_or_generate-load_or_generate}

abbrev pub codec : KeyCodec (List ℕ) (List ℕ)
codec = record {
  from_slice = λ b. some b;
  secret_bytes = λ k. k;
  decode_hex = λ t. some t;
  encode_hex = λ b. b;
  trim = λ t. t;
}

pub codec-IsKeyCodec : IsKeyCodec codec
codec-IsKeyCodec = record {
  from_slice-secret_bytes = λ k. refl;
  decode_hex-encode_hex = λ b. refl;
  trim-encode_hex = λ b. refl;
}

abbrev pub empty_disk : Disk (List ℕ)
empty_disk = record { file = none; reads = true; makes_dirs = true; writes = true; torn = none }

abbrev pub disk_after : Disk (List ℕ)
disk_after = record empty_disk { file = some (7 ∷ []) }

first_start : load_or_generate codec empty_disk (7 ∷ []) ≡ (ok (7 ∷ []), disk_after)
unfolding load_or_generate generate
first_start = refl

load_or_generate-load_or_generate_example :
    load_or_generate codec disk_after (9 ∷ []) ≡ (ok (7 ∷ []), disk_after)
load_or_generate-load_or_generate_example =
    load_or_generate-load_or_generate codec codec-IsKeyCodec empty_disk disk_after (7 ∷ []) (9 ∷ [])
      (7 ∷ []) refl first_start
