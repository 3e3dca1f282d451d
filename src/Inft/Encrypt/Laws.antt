-- ===== src/Inft/Encrypt/Laws.antt =====
-- Encryption and decryption of the metadata against each other, and the key's length.
use agent_inference_ethden.Base.{
  ◌≡◌, ◌≢◌, ◌⊎◌, [], ◌∷◌, none, Option, str_eq, if◌then◌else◌, ok, err, Error, String, List, Bytes,
  length, arith, some, cause, encryption_failed, ◌<>◌, wrap, sentinel, refl, inl, inr, Result-cases,
}
use agent_inference_ethden.Base.Decimal.{decimal}
use agent_inference_ethden.World.{World, History, random}
use agent_inference_ethden.Inft.Types.{EncryptedMeta, Codec}
use agent_inference_ethden.Inft.Encrypt.{encryption_algorithm, encrypt_metadata, decrypt_metadata}

-- The value of a key of a map that is listed in any order.
abbrev pub lookup : String → List (String × String) → Option String
lookup k [] = none
lookup k ((k', v) ∷ m) = if str_eq k k' then some v else lookup k m

-- The same map, whatever the order of its entries.
abbrev pub IsSameMap : List (String × String) → List (String × String) → Type 0
IsSameMap m n = (k : String) → lookup k m ≡ lookup k n

-- What the program relies on for its metadata: `Open` undoes `Seal` at the same key and nonce, and
-- JSON reads the map that it wrote, in the order of the keys, back as the same map. Package
-- encoding/json does so for texts in UTF-8.
pub record IsFaithful (codec : Codec) (meta : List (String × String)) : Type 0 where
  pub unseal-seal :
      (key nonce plain : Bytes) → codec.unseal key nonce (codec.seal key nonce plain) ≡ ok plain
  pub unmarshal-marshal :
      (b : Bytes)
      → codec.marshal_map meta ≡ ok b
      → (read : List (String × String)) × (codec.unmarshal_map b ≡ ok read) × IsSameMap read meta

module _ (w : World) (codec : Codec) (key : Bytes) (key_id : String)
    (meta : List (String × String)) where
  -- If `Open` undoes `Seal`, and JSON reads the metadata that it wrote back as the same map: what the
  -- encryption returns is labelled with the key's id and the algorithm, its nonce are fresh random
  -- bytes, and decryption under the same key gives a map with the same value for every key.
  pub decrypt-encrypt :
      (h h' : History) {enc : EncryptedMeta}
      → IsFaithful codec meta
      → (encrypt_metadata codec w key key_id meta h).0 ≡ ok enc
      → (read : List (String × String)) × ((decrypt_metadata codec key enc h').0 ≡ ok read)
        × IsSameMap read meta
        × (enc.key_id ≡ key_id)
        × (enc.algorithm ≡ encryption_algorithm)
        × (w.rand_read h codec.nonce_size ≡ ok enc.nonce)
  unfolding encrypt_metadata decrypt_metadata
  decrypt-encrypt h h' {enc} f e = elim (Result-cases (codec.marshal_map meta)) [
    | inr (g, q) ↦ ground arith
    | inl (plain, q) ↦
        let (read, back, same) = f.unmarshal-marshal plain q in
        (
          read,
          grind (arith, f.unseal-seal key enc.nonce plain),
          same,
          ground arith,
          ground arith,
          ground arith,
        )
  ]

  -- A key that is not 32 bytes long is refused as `ErrEncryptionFailed`, before a random byte is
  -- read, by encryption and decryption alike.
  pub bad_key :
      (h : History) (enc : EncryptedMeta)
      → length key ≢ 32
      → ((e : Error) × (encrypt_metadata codec w key key_id meta h ≡ (err e, h))
          × (cause e ≡ some encryption_failed))
        × ((e : Error) × (decrypt_metadata codec key enc h ≡ (err e, h))
            × (cause e ≡ some encryption_failed))
  unfolding encrypt_metadata decrypt_metadata
  bad_key h enc n = (
    (
      wrap ("inft: encryption key must be 32 bytes, got " <> decimal (length key) <> ": ")
          (sentinel encryption_failed),
      ground arith,
      refl,
    ),
    (
      wrap ("inft: decryption key must be 32 bytes, got " <> decimal (length key) <> ": ")
          (sentinel encryption_failed),
      ground arith,
      refl,
    ),
  )

  -- An encryption reads random bytes at most.
  pub encrypt_metadata-history :
      (h : History)
      → ((encrypt_metadata codec w key key_id meta h).1 ≡ h)
        ⊎ ((encrypt_metadata codec w key key_id meta h).1 ≡ random codec.nonce_size ∷ h)
  unfolding encrypt_metadata
  encrypt_metadata-history h = ground arith
