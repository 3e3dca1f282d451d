-- ===== src/Inft/Laws.antt =====
-- What `Mint`, `GetStatus` and `UpdateMetadata` promise.
use agent_inference_ethden.Base.{
  ℕ, ◌≡◌, ◌≢◌, ◌⊎◌, inl, inr, Result, Option, ok, err, wrap, sentinel, Error, String, ◌<>◌, Bytes,
  List, [], ◌∷◌, length, get_or, arith, some, none, cause, encryption_failed, token_not_found,
  Bool-cases, Result-cases, IsFirst, IsFirst-here, IsFirst-there, refl,
}
use agent_inference_ethden.Base.Int.{pos}
use agent_inference_ethden.Base.Decimal.{decimal, set_string, set_string-decimal}
use agent_inference_ethden.World.{
  World, History, Tx, Log, Receipt, View, Value, address, big, bytes, sent, mined, ctx_check,
  transactions, make_transact_opts,
}
use agent_inference_ethden.Inft.{
  Minter, MintRequest, EncryptedMeta, InftStatus, Codec, is_transfer, find_token,
  parse_transfer_event, mint_tx, not_found, encrypted_bytes, send_mint, mint, update_metadata,
  get_status,
}
use agent_inference_ethden.Inft.Encrypt.Laws.{bad_key}

find_token-IsFirst :
    (id : ℕ) (logs : List Log) {token : ℕ}
    → find_token id logs ≡ some token
    → (log : Log) × IsFirst (is_transfer id) log logs × (token ≡ get_or log.topics 3 0)
unfolding find_token
find_token-IsFirst id [] e = ground arith
find_token-IsFirst id (l ∷ logs) e = elim (Bool-cases (is_transfer id l)) [
  | inl yes_l ↦ (l, IsFirst-here l logs yes_l, ground arith)
  | inr no_l ↦
      let (log, first, same) = find_token-IsFirst id logs (ground arith) in
      (log, IsFirst-there l no_l first, same)
]

-- The call returned, and its first value is this address.
abbrev pub first_address : Result (List Value) → Option ℕ
first_address (ok (address a ∷ _)) = some a
first_address _ = none

abbrev no_meta : EncryptedMeta
no_meta = record { ciphertext = []; nonce = []; key_id = ""; algorithm = "" }

module _ (w : World) (codec : Codec) (m : Minter) (req : MintRequest) where
  -- A mint that has gone through in the history `h`, with its token.
  pub record Minted (token : ℕ) (h : History) : Type 0 where
    pub enc : Bytes
    pub before : History
    pub hash : String
    pub receipt : Receipt
    pub log : Log
    pub accepted : w.transact before (mint_tx w codec m req enc) ≡ ok hash
    pub mined_ok : w.wait_mined (sent (mint_tx w codec m req enc) ∷ before) hash ≡ ok receipt
    pub succeeded : receipt.status ≡ 1
    pub first : IsFirst (is_transfer (w.event_id "Transfer")) log receipt.logs
    pub named : token ≡ get_or log.topics 3 0
    pub done : h ≡ mined hash ∷ sent (mint_tx w codec m req enc) ∷ before

  Sent : Bytes → String → History → History → Type 0
  Sent enc id h h' =
      (hash : String) × (receipt : Receipt) × (token : ℕ) × (w.transact h
          (mint_tx w codec m req enc)
        ≡ ok hash)
      × (w.wait_mined (sent (mint_tx w codec m req enc) ∷ h) hash ≡ ok receipt)
      × (receipt.status ≡ 1)
      × (find_token (w.event_id "Transfer") receipt.logs ≡ some token)
      × (id ≡ decimal token)
      × (h' ≡ mined hash ∷ sent (mint_tx w codec m req enc) ∷ h)

  send_mint-Sent :
      (enc : Bytes) (h : History) {id : String}
      → (send_mint w codec m req enc h).0 ≡ ok id
      → Sent enc id h (send_mint w codec m req enc h).1
  unfolding send_mint mint_tx make_transact_opts parse_transfer_event Sent
  send_mint-Sent enc h e = ground arith

  mint-send :
      (h : History) {id : String}
      → (mint w codec m req h).0 ≡ ok id
      → (enc : Bytes) × (g : History) × ((send_mint w codec m req enc g).0 ≡ ok id)
        × ((mint w codec m req h).1 ≡ (send_mint w codec m req enc g).1)
  unfolding mint
  mint-send h e = elim (Result-cases (encrypted_bytes w codec m req (ctx_check ∷ h)).0) [
    | inr (f, q) ↦ ground arith
    | inl (enc, q) ↦
        (enc, (encrypted_bytes w codec m req (ctx_check ∷ h)).1, ground arith, ground arith)
  ]

  -- A successful mint has sent the request's transaction, which was mined with status 1. The id is
  -- the decimal of the token in the first `Transfer` log with at least four topics, and it parses
  -- back to that token.
  pub mint-Minted :
      (h : History) {id : String}
      → (mint w codec m req h).0 ≡ ok id
      → (token : ℕ) × (id ≡ decimal token)
        × (set_string id ≡ some (pos token))
        × Minted token (mint w codec m req h).1
  unfolding Sent
  mint-Minted h e =
      let (enc, g, s, ended) = mint-send h e in
      let (hash, receipt, token, a, b, st, f, i, d) = send_mint-Sent enc g s in
      let (log, first, same) = find_token-IsFirst (w.event_id "Transfer") receipt.logs f in
      (
        token,
        i,
        rw i (set_string-decimal token),
        record {
          enc = enc;
          before = g;
          hash = hash;
          receipt = receipt;
          log = log;
          accepted = a;
          mined_ok = b;
          succeeded = st;
          first = first;
          named = same;
          done = rw ended d;
        },
      )

  -- With an encryption key that is not 32 bytes long a mint under a live context ends in
  -- `ErrEncryptionFailed`, and sends no transaction.
  pub mint_bad_key :
      (h : History)
      → w.ctx_err h ≡ none
      → length m.cfg.encryption_key ≢ 32
      → (e : Error) × ((mint w codec m req h).0 ≡ err e)
        × (cause e ≡ some encryption_failed)
        × (transactions (mint w codec m req h).1 ≡ transactions h)
  unfolding mint encrypted_bytes
  mint_bad_key h live n =
      let ((e, refused, fault), _) =
        bad_key w codec m.cfg.encryption_key m.cfg.encryption_key_id req.plaintext_meta
          (ctx_check ∷ h) no_meta n in
      (
        wrap ("inft: encrypt metadata for job " <> req.inference_job_id <> ": ") e,
        ground arith,
        fault,
        ground arith,
      )

module _ (w : World) (codec : Codec) (m : Minter) where
  abbrev question : ℕ → View
  question token = record { contract = m.contract; method = "ownerOf"; args = big (pos token) ∷ [] }

  abbrev pub update_tx : ℕ → Bytes → Tx
  update_tx token enc = record {
    contract = m.contract;
    opts = record { key = m.key; chain_id = m.cfg.chain_id; value = none };
    method = "updateEncryptedMetadata";
    args = big (pos token) ∷ bytes enc ∷ [];
  }

  abbrev pub answer : ℕ → History → Option ℕ
  answer token h = first_address (w.view (ctx_check ∷ h) (question token))

  abbrev pub status : ℕ → ℕ → InftStatus
  status token owner = record {
    token_id = decimal token;
    owner = w.address_hex owner;
    minted_at = 0;
    metadata_hash = "";
    chain_id = m.cfg.chain_id;
    contract_address = m.cfg.contract_address;
    tx_hash = "";
  }

  missing : ℕ → Error
  missing token = wrap ("inft: token " <> decimal token <> ": ") (sentinel token_not_found)

  -- For an id that `Mint` returned, under a live context: when the contract names an owner of that
  -- very token other than the address zero, `GetStatus` tells it.
  pub get_status_owned :
      (token : ℕ) (h : History) (owner : ℕ)
      → w.ctx_err h ≡ none
      → owner ≢ 0
      → answer token h ≡ some owner
      → (get_status w codec m (decimal token) h).0 ≡ ok (status token owner)
  unfolding get_status not_found
  get_status_owned token h owner live n a = let parsed = set_string-decimal token in ground arith

  -- Any other answer of the contract, a failed call included, is `ErrTokenNotFound`, and no branch
  -- sends a transaction.
  pub get_status_missing :
      (token : ℕ) (h : History)
      → w.ctx_err h ≡ none
      → (answer token h ≡ none) ⊎ (answer token h ≡ some 0)
      → (e : Error) × ((get_status w codec m (decimal token) h).0 ≡ err e)
        × (cause e ≡ some token_not_found)
        × (transactions (get_status w codec m (decimal token) h).1 ≡ transactions h)
  unfolding get_status not_found missing
  get_status_missing token h live a =
      let parsed = set_string-decimal token in (missing token, ground arith, refl, ground arith)

  -- `UpdateMetadata` of an id that `Mint` returned: when it succeeds, its transaction has carried
  -- the encoded metadata for that very token, and was mined with status 1.
  pub update_metadata_lem :
      (token : ℕ) (meta : EncryptedMeta) (h : History)
      → (update_metadata w codec m (decimal token) meta h).0 ≡ ok tt
      → (enc : Bytes) × (hash : String) × (receipt : Receipt) × (codec.marshal_encrypted meta
          ≡ ok enc)
        × (w.transact (ctx_check ∷ h) (update_tx token enc) ≡ ok hash)
        × (w.wait_mined (sent (update_tx token enc) ∷ ctx_check ∷ h) hash ≡ ok receipt)
        × (receipt.status ≡ 1)
  unfolding update_metadata make_transact_opts
  update_metadata_lem token meta h e =
      let parsed = set_string-decimal token in
      elim (Result-cases (codec.marshal_encrypted meta)) [
        | inr (f, q) ↦ ground arith
        | inl (enc, q) ↦ elim (Result-cases (w.transact (ctx_check ∷ h) (update_tx token enc))) [
          | inr (f, r) ↦ ground arith
          | inl (hash, r) ↦
              elim (Result-cases (w.wait_mined (sent (update_tx token enc) ∷ ctx_check ∷ h) hash)) [
                | inr (f, t) ↦ ground arith
                | inl (receipt, t) ↦ (enc, hash, receipt, q, r, t, ground arith)
              ]
        ]
      ]
