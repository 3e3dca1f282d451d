-- ===== src/Storage/Typed.antt =====
-- The transactions of internal/zerog/storage/client.go fit the ABI that it declares.
use agent_inference_ethden.Base.{◌≡◌, refl, true, Bytes, List, length, arith}
use agent_inference_ethden.World.{World, sent, History}
use agent_inference_ethden.Abi.{
  Binding, find_method, is_of, fit, takes_amount, accepts_tx, is_bound, is_typed,
}
use agent_inference_ethden.Abi.Contracts.{flow_abi}
use agent_inference_ethden.Abi.Laws.{is_typed-Keeps, Bound, is_bound-sent}
use agent_inference_ethden.Storage.Keeps.{upload-keeps}
use agent_inference_ethden.Storage.Laws.{anchor}
use agent_inference_ethden.Storage.{Client, Codec, Metadata, upload}

abbrev pub binding : Client → Binding
binding c = record { contract = c.contract; abi = flow_abi; key = c.key; chain_id = c.cfg.chain_id }

-- What the program relies on: `sha256.Sum256` is a [32]byte.
abbrev pub IsSum256 : Codec → Type 0
IsSum256 codec = (content : Bytes) → length (codec.sha256 content) ≡ 32

module _ (w : World) (codec : Codec) (sum : IsSum256 codec) (c : Client) {bs : List Binding}
    (bound : Bound (binding c) bs) where
  anchor-accepts : (content : Bytes) → accepts_tx flow_abi (anchor w codec c content) ≡ true
  unfolding find_method is_of fit takes_amount accepts_tx
  anchor-accepts content = ground (arith, sum content)

  anchor-is_bound : (content : Bytes) → is_bound bs (sent (anchor w codec c content)) ≡ true
  anchor-is_bound content = is_bound-sent bound _ refl refl refl (anchor-accepts content)

  pub upload-is_typed :
      (content : Bytes) (meta : Metadata) (h : History)
      → is_typed bs h ≡ true
      → is_typed bs (upload w codec c content meta h).1 ≡ true
  unfolding is_bound
  upload-is_typed =
      upload-keeps w codec c (λ h. is_typed bs h ≡ true) (λ e. is_bound bs e ≡ true)
        (is_typed-Keeps bs) (λ r. refl) anchor-is_bound
