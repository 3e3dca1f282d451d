-- ===== src/Inft/Keeps.antt =====
-- Frame lemmas of the minter: what they keep of a history.
use agent_inference_ethden.Base.{Bytes, ◌≡◌, refl, arith}
use agent_inference_ethden.World.{World, History, Effect, sent, amount, make_transact_opts}
use agent_inference_ethden.World.Keeps.{Keeps}
use agent_inference_ethden.Inft.{
  Minter, MintRequest, Codec, mint_tx, encrypted_bytes, send_mint, mint,
}
use agent_inference_ethden.Inft.Encrypt.Laws.{encrypt_metadata-history}

module _ (w : World) (codec : Codec) (m : Minter) (req : MintRequest) (Holds : History → Type 0)
    (Allowed : Effect → Type 0) (k : Keeps Holds Allowed)
    (mints : (enc : Bytes) → Allowed (sent (mint_tx w codec m req enc))) where
  encrypted_bytes-keeps : (h : History) → Holds h → Holds (encrypted_bytes w codec m req h).1
  unfolding encrypted_bytes
  encrypted_bytes-keeps h t = grind (
    arith,
    k.grow,
    k.draws,
    encrypt_metadata-history w codec m.cfg.encryption_key m.cfg.encryption_key_id req.plaintext_meta
        h,
  )

  send_mint-keeps : (enc : Bytes) (h : History) → Holds h → Holds (send_mint w codec m req enc h).1
  unfolding send_mint make_transact_opts mint_tx
  send_mint-keeps enc h t = grind (arith, k.grow, k.mines, mints enc)

  pub mint-keeps : (h : History) → Holds h → Holds (mint w codec m req h).1
  unfolding mint
  mint-keeps h t = grind (arith, k.grow, k.checks, encrypted_bytes-keeps, send_mint-keeps)

-- The transaction of `Mint` carries no amount.
pub mint_tx-amount :
    (w : World) (codec : Codec) (m : Minter) (req : MintRequest) (enc : Bytes)
    → amount (sent (mint_tx w codec m req enc)) ≡ 0
unfolding mint_tx
mint_tx-amount w codec m req enc = refl
