-- ===== src/Inft.antt =====
-- The iNFT minter: internal/zerog/inft/models.go, encrypt.go and minter.go.
mod Types
pub mod Encrypt
pub mod Events
pub mod Typed
pub mod Keeps
pub mod Laws
pub mod Tests
pub use Types.*
pub use Encrypt.{encryption_algorithm, encrypt_metadata, decrypt_metadata}
use agent_inference_ethden.Base.{
  ℕ, ◌-◌, String, ◌<>◌, Option, none, some, Bool, not, ◌&&◌, List, [], ◌∷◌, ◌++◌, Bytes, length,
  take, replicate, get_or, to_bytes, Error, new, sentinel, wrap, Result, ok, err, mint_failed,
  token_not_found, pure, lift, ok_or, annotate, or_fail, ◌>>=◌, ◌>>◌, raise_if, raise_some, leb,
  ◌==◌, if◌then◌else◌,
}
use agent_inference_ethden.Base.Int.{ℤ}
use agent_inference_ethden.Base.Decimal.{decimal, set_string}
use agent_inference_ethden.World.{
  World, Io, Log, Receipt, Tx, Value, address, big, text, bytes, fixed, ctx_err, transact,
  wait_mined, view, make_transact_opts,
}

-- The `INFTMinter` that `NewMinter` returns.
pub record Minter : Type 0 where
  pub cfg : MinterConfig
  pub contract : ℕ
  pub key : ℕ
  pub addr : ℕ

-- `var resultHash [32]byte; copy(resultHash[:], b)`
pub copy_32 : Bytes → Bytes
copy_32 b = let head = take 32 b in head ++ replicate (32 - length head) 0

pub is_transfer : ℕ → Log → Bool
is_transfer id log = leb 4 (length log.topics) && get_or log.topics 0 0 == id

pub find_token : ℕ → List Log → Option ℕ
find_token id [] = none
find_token id (log ∷ logs) =
    if is_transfer id log then some (get_or log.topics 3 0) else find_token id logs

module _ (w : World) (codec : Codec) where
  unfoldable pub new_minter : MinterConfig → ℕ → Minter
  new_minter cfg key = record {
    cfg = cfg;
    contract = w.hex_to_address cfg.contract_address;
    key = key;
    addr = w.pubkey_to_address key;
  }

  pub parse_transfer_event : Receipt → Result ℕ
  parse_transfer_event receipt =
      ok_or (find_token (w.event_id "Transfer") receipt.logs)
        (new "inft: Transfer event not found in receipt")

  pub mint_tx : Minter → MintRequest → Bytes → Tx
  mint_tx m req enc = record {
    contract = m.contract;
    opts = record { key = m.key; chain_id = m.cfg.chain_id; value = none };
    method = "mint";
    args =
        address m.addr
        ∷ text req.name
        ∷ text req.description
        ∷ bytes enc
        ∷ fixed (copy_32 (to_bytes req.result_hash))
        ∷ text req.storage_content_id
        ∷ [];
  }

  -- `Mint` up to the bytes that go on-chain.
  pub encrypted_bytes : Minter → MintRequest → Io Bytes
  encrypted_bytes m req = do
    encrypted ←
        annotate ("inft: encrypt metadata for job " <> req.inference_job_id <> ": ")
          (encrypt_metadata codec w m.cfg.encryption_key m.cfg.encryption_key_id req.plaintext_meta)
    annotate "inft: marshal encrypted metadata: " (lift (codec.marshal_encrypted encrypted))

  -- `Mint` from the transaction on.
  pub send_mint : Minter → MintRequest → Bytes → Io String
  send_mint m req enc = do
    opts ←
        annotate "inft: create transact opts: " (lift (make_transact_opts w m.key m.cfg.chain_id))
    hash ← annotate ("inft: mint tx for job " <> req.inference_job_id <> ": ") (
        transact w (record {
          contract = m.contract;
          opts = opts;
          method = "mint";
          args =
              address m.addr
              ∷ text req.name
              ∷ text req.description
              ∷ bytes enc
              ∷ fixed (copy_32 (to_bytes req.result_hash))
              ∷ text req.storage_content_id
              ∷ [];
        }))
    receipt ← annotate ("inft: wait for mint tx " <> hash <> ": ") (wait_mined w hash)
    raise_if (not (receipt.status == 1)) (
        wrap ("inft: mint tx reverted for job " <> req.inference_job_id <> ": ")
          (sentinel mint_failed))
    token ←
        annotate ("inft: parse mint event for job " <> req.inference_job_id <> ": ")
          (lift (parse_transfer_event receipt))
    pure (decimal token)

  pub mint : Minter → MintRequest → Io String
  mint m req = do
    cancelled ← ctx_err w
    raise_some cancelled "inft: context cancelled before mint: "
    enc ← encrypted_bytes m req
    send_mint m req enc

  -- The quotes of `%q`, without its escapes of special characters.
  abbrev invalid_id : String → Error
  invalid_id token_id = new ("inft: invalid token ID \"" <> token_id <> "\"")

  pub update_metadata : Minter → String → EncryptedMeta → Io Unit
  update_metadata m token_id meta = do
    cancelled ← ctx_err w
    raise_some cancelled "inft: context cancelled before update: "
    id ← lift (ok_or (set_string token_id) (invalid_id token_id))
    enc ← annotate "inft: marshal encrypted metadata: " (lift (codec.marshal_encrypted meta))
    opts ←
        annotate "inft: create transact opts: " (lift (make_transact_opts w m.key m.cfg.chain_id))
    hash ← annotate ("inft: update tx for token " <> token_id <> ": ") (
        transact w (record {
          contract = m.contract;
          opts = opts;
          method = "updateEncryptedMetadata";
          args = big id ∷ bytes enc ∷ [];
        }))
    receipt ← annotate ("inft: wait for update tx " <> hash <> ": ") (wait_mined w hash)
    raise_if (not (receipt.status == 1))
        (wrap ("inft: update tx reverted for token " <> token_id <> ": ") (sentinel mint_failed))

  pub not_found : String → Error
  not_found token_id = wrap ("inft: token " <> token_id <> ": ") (sentinel token_not_found)

  -- The two tests behind the call of `ownerOf`: the first result is an address, and not the zero one.
  owner_of : String → List Value → Result ℕ
  owner_of token_id [] = err (not_found token_id)
  owner_of token_id (address owner ∷ _) = if owner == 0 then err (not_found token_id) else ok owner
  owner_of token_id (_ ∷ _) = err (not_found token_id)

  pub get_status : Minter → String → Io InftStatus
  unfolding owner_of
  get_status m token_id = do
    cancelled ← ctx_err w
    raise_some cancelled "inft: context cancelled: "
    id ← lift (ok_or (set_string token_id) (invalid_id token_id))
    results ←
        or_fail (not_found token_id)
          (view w (record { contract = m.contract; method = "ownerOf"; args = big id ∷ [] }))
    owner ← lift (owner_of token_id results)
    pure (record {
      token_id = token_id;
      owner = w.address_hex owner;
      minted_at = 0;
      metadata_hash = "";
      chain_id = m.cfg.chain_id;
      contract_address = m.cfg.contract_address;
      tx_hash = "";
    })
