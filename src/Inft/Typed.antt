-- ===== src/Inft/Typed.antt =====
-- The transactions and calls of internal/zerog/inft/minter.go fit the ABI that it declares.
use agent_inference_ethden.Base.{
  ℕ, zero, suc, ◌≡◌, ◌-◌, refl, none, true, String, Bytes, List, ◌∷◌, [], length, take, replicate,
  length-append, length-take_le, arith, to_bytes, Option-cases, Result-cases, inl, inr,
}
use agent_inference_ethden.Base.Int.{ℤ}
use agent_inference_ethden.Base.Decimal.{set_string}
use agent_inference_ethden.World.{
  World, sent, viewed, History, Tx, View, big, bytes, make_transact_opts,
}
use agent_inference_ethden.Abi.{
  Binding, find_method, is_of, fit, takes_amount, is_view, accepts_tx, accepts_view, is_bound,
  is_typed,
}
use agent_inference_ethden.Abi.Contracts.{contract_abi}
use agent_inference_ethden.Abi.Laws.{is_typed-Keeps, Bound, is_bound-sent, is_bound-viewed}
use agent_inference_ethden.Inft.Keeps.{mint-keeps}
use agent_inference_ethden.Inft.{
  Minter, MintRequest, EncryptedMeta, Codec, copy_32, mint_tx, mint, update_metadata, get_status,
}

abbrev pub binding : Minter → Binding
binding m = record {
  contract = m.contract;
  abi = contract_abi;
  key = m.key;
  chain_id = m.cfg.chain_id;
}

length-replicate : (n a : ℕ) → length (replicate n a) ≡ n
length-replicate zero a = refl
length-replicate (suc n) a = omega (arith, length-replicate n a)

-- The bytes of a result hash fill a bytes32.
pub length-copy_32 : (b : Bytes) → length (copy_32 b) ≡ 32
unfolding copy_32
length-copy_32 b = omega (
  arith,
  length-append (take 32 b) (replicate (32 - length (take 32 b)) 0),
  length-replicate (32 - length (take 32 b)) 0,
  length-take_le 32 b,
)

module _ (w : World) (codec : Codec) (m : Minter) {bs : List Binding}
    (bound : Bound (binding m) bs) where
  mint_tx-accepts :
      (req : MintRequest) (enc : Bytes) → accepts_tx contract_abi (mint_tx w codec m req enc) ≡ true
  unfolding mint_tx find_method is_of fit takes_amount accepts_tx
  mint_tx-accepts req enc = ground (arith, length-copy_32 (to_bytes req.result_hash))

  mint_tx-is_bound :
      (req : MintRequest) (enc : Bytes) → is_bound bs (sent (mint_tx w codec m req enc)) ≡ true
  unfolding mint_tx
  mint_tx-is_bound req enc = is_bound-sent bound _ refl refl refl (mint_tx-accepts req enc)

  abbrev update_tx : ℤ → Bytes → Tx
  update_tx id enc = record {
    contract = m.contract;
    opts = record { key = m.key; chain_id = m.cfg.chain_id; value = none };
    method = "updateEncryptedMetadata";
    args = big id ∷ bytes enc ∷ [];
  }

  update_tx-is_bound : (id : ℤ) (enc : Bytes) → is_bound bs (sent (update_tx id enc)) ≡ true
  unfolding find_method is_of fit takes_amount accepts_tx
  update_tx-is_bound id enc = is_bound-sent bound _ refl refl refl refl

  abbrev question : ℤ → View
  question id = record { contract = m.contract; method = "ownerOf"; args = big id ∷ [] }

  question-is_bound : (id : ℤ) → is_bound bs (viewed (question id)) ≡ true
  unfolding find_method is_of fit is_view accepts_view
  question-is_bound id = is_bound-viewed bound _ refl refl

  pub mint-is_typed :
      (req : MintRequest) (h : History)
      → is_typed bs h ≡ true
      → is_typed bs (mint w codec m req h).1 ≡ true
  mint-is_typed req =
      mint-keeps w codec m req (λ h. is_typed bs h ≡ true) (λ e. is_bound bs e ≡ true)
        (is_typed-Keeps bs) (mint_tx-is_bound req)

  pub update_metadata-is_typed :
      (id : String) (meta : EncryptedMeta) (h : History)
      → is_typed bs h ≡ true
      → is_typed bs (update_metadata w codec m id meta h).1 ≡ true
  unfolding update_metadata make_transact_opts
  update_metadata-is_typed id meta h t =
      let k = is_typed-Keeps bs in
      elim (Option-cases (set_string id)) [
        | inl q ↦ grind (arith, k.grow, k.checks)
        | inr (token, q) ↦ elim (Result-cases (codec.marshal_encrypted meta)) [
          | inr (f, r) ↦ grind (arith, k.grow, k.checks)
          | inl (enc, r) ↦ grind (arith, k.grow, k.checks, k.mines, update_tx-is_bound token enc)
        ]
      ]

  pub get_status-is_typed :
      (id : String) (h : History)
      → is_typed bs h ≡ true
      → is_typed bs (get_status w codec m id h).1 ≡ true
  unfolding get_status
  get_status-is_typed id h t =
      let k = is_typed-Keeps bs in
      elim (Option-cases (set_string id)) [
        | inl q ↦ grind (arith, k.grow, k.checks)
        | inr (token, q) ↦ grind (arith, k.grow, k.checks, question-is_bound token)
      ]
