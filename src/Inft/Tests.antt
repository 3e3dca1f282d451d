-- ===== src/Inft/Tests.antt =====
-- The minter and the encryption of metadata at concrete inputs.
use agent_inference_ethden.Base.{ℕ, ◌≡◌, ok, err, Bytes, [], some, new, arith}
use agent_inference_ethden.Base.Int.{pos}
use agent_inference_ethden.Base.Decimal.{decimal, set_string, set_string-decimal}
use agent_inference_ethden.World.{World, History, make_transact_opts}
use agent_inference_ethden.World.Sample.{sample_world}
use agent_inference_ethden.Inft.{
  Minter, MintRequest, mint, encrypted_bytes, send_mint, parse_transfer_event, find_token,
  is_transfer, update_metadata,
}
use agent_inference_ethden.Inft.Laws
use agent_inference_ethden.Inft.Laws.{Minted}
use agent_inference_ethden.Inft.Encrypt.Tests.{
  mint_meta, codec, key, sealed, encrypted_next, encrypted_blind,
}

abbrev pub minter : Bytes → Minter
minter encryption_key = record {
  cfg = record {
    chain_rpc = "";
    chain_id = pos 16_602;
    contract_address = "0x9";
    private_key = "";
    encryption_key = encryption_key;
    encryption_key_id = "default";
  };
  contract = 9;
  key = 3;
  addr = 3;
}

abbrev request : MintRequest
request = record {
  name = "Inference Result: t1";
  description = "";
  inference_job_id = "job";
  result_hash = "";
  plaintext_meta = mint_meta;
  storage_content_id = "ab05";
}

minted : (mint sample_world codec (minter key) request []).0 ≡ ok "42"
unfolding mint encrypted_bytes send_mint make_transact_opts parse_transfer_event find_token
    is_transfer decimal
minted = rw encrypted_next

mint-Minted_example :
    (token : ℕ) × ("42" ≡ decimal token)
    × (set_string "42" ≡ some (pos token))
    × Minted sample_world codec
        (minter key)
        request
        token
        (mint sample_world codec (minter key) request []).1
mint-Minted_example = Laws.mint-Minted sample_world codec (minter key) request [] minted

abbrev no_owner : World
no_owner = record sample_world { view = λ h v. err (new "reverted") }

updated : (update_metadata sample_world codec (minter key) (decimal 42) sealed []).0 ≡ ok tt
unfolding update_metadata make_transact_opts
updated = ground (arith, set_string-decimal 42)

pub minted_blind :
    (req : MintRequest) (h : History) → (mint sample_world codec (minter key) req h).0 ≡ ok "42"
unfolding mint encrypted_bytes send_mint make_transact_opts parse_transfer_event find_token
    is_transfer decimal
minted_blind req h = rw encrypted_blind
