-- ===== src/Inft/Encrypt/Tests.antt =====
-- The encryption of metadata at concrete inputs, and a codec for the tests.
use agent_inference_ethden.Base.{
  ◌≡◌, refl, sym, inl, inr, ok, err, String, Bytes, List, [], ◌∷◌, replicate, none, new, str_eq,
  eq_iff, Bool-cases, arith,
}
use mathlib.Core.Path.{subst}
use agent_inference_ethden.World.{History, ctx_check, random}
use agent_inference_ethden.World.Sample.{sample_world}
use agent_inference_ethden.Inft.Types.{EncryptedMeta, Codec}
use agent_inference_ethden.Inft.Encrypt.{
  encryption_algorithm, encrypt_metadata, decrypt_metadata, open_cipher,
}
use agent_inference_ethden.Inft.Encrypt.Laws
use agent_inference_ethden.Inft.Encrypt.Laws.{IsFaithful, IsSameMap, lookup}

-- The metadata of a mint, and the same in the order of JSON.
abbrev pub mint_meta : List (String × String)
mint_meta = ("task_id", "t1") ∷ ("model_id", "m") ∷ ("agent_id", "agent") ∷ []

abbrev sorted : List (String × String)
sorted = ("agent_id", "agent") ∷ ("model_id", "m") ∷ ("task_id", "t1") ∷ []

abbrev pub codec : Codec
codec = record {
  cipher_err = λ key. none;
  gcm_err = λ key. none;
  nonce_size = 12;
  seal = λ key nonce plain. 99 ∷ plain;
  unseal = λ key nonce sealed. elim sealed [ [] ↦ err (new "open") | c ∷ plain ↦ ok plain ];
  marshal_map = λ m. ok (1 ∷ []);
  unmarshal_map = λ b. ok sorted;
  marshal_encrypted = λ enc. ok enc.ciphertext;
}

sorted-IsSameMap : IsSameMap sorted mint_meta
sorted-IsSameMap k =
    let same = λ (x : String). lookup x sorted ≡ lookup x mint_meta in
    elim (Bool-cases (str_eq k "task_id")) [
      | inl b ↦ subst same (sym ((eq_iff k "task_id").0 b)) refl
      | inr n ↦ elim (Bool-cases (str_eq k "model_id")) [
        | inl b ↦ subst same (sym ((eq_iff k "model_id").0 b)) refl
        | inr m ↦ ground arith
      ]
    ]

codec-IsFaithful : IsFaithful codec mint_meta
codec-IsFaithful = record {
  unseal-seal = λ key nonce plain. refl;
  unmarshal-marshal = λ b e. (sorted, refl, sorted-IsSameMap);
}

abbrev pub key : Bytes
key = replicate 32 1

abbrev pub sealed : EncryptedMeta
sealed = record {
  ciphertext = 99 ∷ 1 ∷ [];
  nonce = replicate 12 7;
  key_id = "default";
  algorithm = "AES-256-GCM";
}

encrypted : (encrypt_metadata codec sample_world key "default" mint_meta []).0 ≡ ok sealed
unfolding encrypt_metadata open_cipher
encrypted = refl

-- The same behind a look at the context.
pub encrypted_next :
    encrypt_metadata codec sample_world key "default" mint_meta (ctx_check ∷ [])
    ≡ (ok sealed, random 12 ∷ ctx_check ∷ [])
unfolding encrypt_metadata open_cipher
encrypted_next = refl

decrypt-encrypt_example :
    (read : List (String × String)) × ((decrypt_metadata codec key sealed []).0 ≡ ok read)
    × IsSameMap read mint_meta
    × (sealed.key_id ≡ "default")
    × (sealed.algorithm ≡ encryption_algorithm)
    × (sample_world.rand_read [] 12 ≡ ok (replicate 12 7))
decrypt-encrypt_example =
    Laws.decrypt-encrypt sample_world codec key "default" mint_meta [] [] codec-IsFaithful encrypted

-- The code does not look at the map.
pub encrypted_blind :
    (meta : List (String × String)) (h : History)
    → encrypt_metadata codec sample_world key "default" meta h ≡ (ok sealed, random 12 ∷ h)
unfolding encrypt_metadata open_cipher
encrypted_blind meta h = refl
