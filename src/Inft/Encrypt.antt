-- ===== src/Inft/Encrypt.antt =====
-- internal/zerog/inft/encrypt.go
pub mod Laws
pub mod Tests
use agent_inference_ethden.Base.{
  ℕ, String, ◌<>◌, Option, none, some, not, List, Bytes, length, Error, wrap, sentinel, Result, ok,
  err, encryption_failed, pure, raise, lift, annotate, or_fail, ◌>>=◌, ◌>>◌, raise_if, ◌==◌,
}
use agent_inference_ethden.Base.Decimal.{decimal}
use agent_inference_ethden.World.{World, History, Io, rand_read}
use agent_inference_ethden.Inft.Types.{EncryptedMeta, Codec}

abbrev pub encryption_algorithm : String
encryption_algorithm = "AES-256-GCM"

abbrev fault : String → Error
fault msg = wrap msg (sentinel encryption_failed)

-- `if err != nil` behind a call of a cipher package, whose own error is dropped.
abbrev check_cipher : Option Error → String → Io Unit
check_cipher none msg h = (ok tt, h)
check_cipher (some e) msg h = (err (fault msg), h)

module _ (codec : Codec) where
  -- Both functions build the same cipher first.
  open_cipher : Bytes → Io Unit
  open_cipher key = do
    check_cipher (codec.cipher_err key) "inft: failed to create cipher: "
    check_cipher (codec.gcm_err key) "inft: failed to create GCM: "

  pub decrypt_metadata : Bytes → EncryptedMeta → Io (List (String × String))
  unfolding open_cipher
  decrypt_metadata key enc = do
    raise_if (not (length key == 32))
        (fault ("inft: decryption key must be 32 bytes, got " <> decimal (length key) <> ": "))
    open_cipher key
    plaintext ←
        or_fail (fault "inft: decryption failed: ")
          (lift (codec.unseal key enc.nonce enc.ciphertext))
    annotate "inft: failed to deserialize metadata: " (lift (codec.unmarshal_map plaintext))

  module _ (w : World) where
    pub encrypt_metadata : Bytes → String → List (String × String) → Io EncryptedMeta
    unfolding open_cipher
    encrypt_metadata key key_id meta = do
      raise_if (not (length key == 32))
          (fault ("inft: encryption key must be 32 bytes, got " <> decimal (length key) <> ": "))
      plaintext ← annotate "inft: failed to serialize metadata: " (lift (codec.marshal_map meta))
      open_cipher key
      nonce ← or_fail (fault "inft: failed to generate nonce: ") (rand_read w codec.nonce_size)
      pure (record {
        ciphertext = codec.seal key nonce plaintext;
        nonce = nonce;
        key_id = key_id;
        algorithm = encryption_algorithm;
      })
