-- ===== src/NodeKey/Restart.antt =====
-- src/node_key.rs: the key of a later start.
use reth_sentry_node.Prelude.{
  arith, true, ◌≡◌, refl, sym, ap, ◌∙◌, Option, none, some, Result, ok, Option-cases, inl, inr,
}
use reth_sentry_node.NodeKey.{
  KeyCodec, IsKeyCodec, Disk, KeyError, to_bytes, to_key, load, generate, load_or_generate,
}

module _ {SecretKey Text : Type 0} (codec : KeyCodec SecretKey Text) where
  load_or_generate-none :
      (disk : Disk Text) (key : SecretKey)
      → disk.file ≡ none
      → load_or_generate codec disk key ≡ generate codec disk key
  unfolding load_or_generate
  load_or_generate-none disk key e =
      ap
        (λ (o : Option Text). elim o [
          | none ↦ generate codec disk key
          | some hex ↦ (load codec disk hex, disk)
        ])
        e

  load_or_generate-some :
      (disk : Disk Text) (key : SecretKey) {hex : Text}
      → disk.file ≡ some hex
      → load_or_generate codec disk key ≡ (load codec disk hex, disk)
  unfolding load_or_generate
  load_or_generate-some disk key e =
      ap
        (λ (o : Option Text). elim o [
          | none ↦ generate codec disk key
          | some hex ↦ (load codec disk hex, disk)
        ])
        e

  module _ (laws : IsKeyCodec codec) where
    -- What was written is read back.
    load-encode_hex :
        (disk : Disk Text) (key : SecretKey)
        → disk.reads ≡ true
        → load codec disk (codec.encode_hex (codec.secret_bytes key)) ≡ ok key
    unfolding load to_bytes to_key
    load-encode_hex disk key r =
        rw
          (
            r,
            laws.trim-encode_hex (codec.secret_bytes key),
            laws.decode_hex-encode_hex (codec.secret_bytes key),
            laws.from_slice-secret_bytes key,
          )
          refl

    -- After a generation that succeeds, the disk is the same but for the file with the key.
    generate-ok :
        (disk disk' : Disk Text) (key k : SecretKey)
        → generate codec disk key ≡ (ok k, disk')
        → (k ≡ key)
          × (disk' ≡ record disk { file = some (codec.encode_hex (codec.secret_bytes key)) })
    unfolding generate
    generate-ok disk disk' key k e = ground arith

    -- For a codec with its laws and a disk on which a read succeeds: if a start yields a key, whether
    -- loaded or generated, then each later start yields that key, whatever key would be generated,
    -- and leaves the disk as it is.
    pub load_or_generate-load_or_generate :
        (disk disk' : Disk Text) (key later k : SecretKey)
        → disk.reads ≡ true
        → load_or_generate codec disk key ≡ (ok k, disk')
        → load_or_generate codec disk' later ≡ (ok k, disk')
    load_or_generate-load_or_generate disk disk' key later k r e = elim (Option-cases disk.file) [
      | inl n ↦
          let (own, written) =
            generate-ok disk disk' key k (sym (load_or_generate-none disk key n) ∙ e) in
          load_or_generate-some disk' later (ap (λ d. d.file) written)
          ∙ ap (λ (x : Result KeyError SecretKey). (x, disk'))
              (load-encode_hex disk' key (ap (λ d. d.reads) written ∙ r) ∙ ap ok (sym own))
      | inr (hex, s) ↦
          let first = sym (load_or_generate-some disk key s) ∙ e in
          let same : disk ≡ disk' = ap (λ p. p.1) first in
          ap (λ d. load_or_generate codec d later) (sym same)
          ∙ load_or_generate-some disk later s
          ∙ first
    ]
