-- ===== src/Abi/Contracts.antt =====
-- The texts `servingABIJSON` of internal/zerog/compute/broker.go, `ledgerABIJSON` and
-- `servingSessionABIJSON` of session.go, `contractABIJSON` of internal/zerog/inft/minter.go,
-- `flowABIJSON` of internal/zerog/storage/client.go and `daABIJSON` of internal/zerog/da/publisher.go.
use agent_inference_ethden.Base.{none, some, true, false, [], ◌∷◌}
use agent_inference_ethden.Abi.{
  address_type, uint256_type, string_type, bytes_type, bytes32_type, bool_type, Fields, one, tuple,
  tuples, Mutability, Method, Event, Abi,
}

-- The components of the tuples of `getAllServices` and `getService`, which are the same.
abbrev pub service_fields : Fields
service_fields =
    ("provider", address_type)
    ∷ ("name", string_type)
    ∷ ("url", string_type)
    ∷ ("inputPrice", uint256_type)
    ∷ ("outputPrice", uint256_type)
    ∷ ("updatedAt", uint256_type)
    ∷ ("model", string_type)
    ∷ ("verifiability", string_type)
    ∷ ("content", string_type)
    ∷ ("signer", address_type)
    ∷ ("occupied", bool_type)
    ∷ []

abbrev pub get_all_services : Method
get_all_services = record {
  name = "getAllServices";
  mutability = some Mutability.view;
  inputs = ("offset", uint256_type) ∷ ("limit", uint256_type) ∷ [];
  outputs = ("services", tuples service_fields) ∷ ("total", one uint256_type) ∷ [];
}

abbrev pub get_service : Method
get_service = record {
  name = "getService";
  mutability = some Mutability.view;
  inputs = ("provider", address_type) ∷ [];
  outputs = ("", tuple service_fields) ∷ [];
}

abbrev pub serving_abi : Abi
serving_abi = record { methods = get_all_services ∷ get_service ∷ []; events = [] }

abbrev pub add_ledger : Method
add_ledger = record {
  name = "addLedger";
  mutability = some Mutability.payable;
  inputs = ("additionalInfo", string_type) ∷ [];
  outputs = [];
}

abbrev pub deposit_fund : Method
deposit_fund = record {
  name = "depositFund";
  mutability = some Mutability.payable;
  inputs = [];
  outputs = [];
}

abbrev pub get_ledger : Method
get_ledger = record {
  name = "getLedger";
  mutability = some Mutability.view;
  inputs = ("user", address_type) ∷ [];
  outputs =
      (
        "",
        tuple (
            ("user", address_type)
            ∷ ("totalBalance", uint256_type)
            ∷ ("availableBalance", uint256_type)
            ∷ ("additionalInfo", string_type)
            ∷ []),
      )
      ∷ [];
}

abbrev pub transfer_fund : Method
transfer_fund = record {
  name = "transferFund";
  mutability = some Mutability.nonpayable;
  inputs =
      ("provider", address_type) ∷ ("serviceName", string_type) ∷ ("amount", uint256_type) ∷ [];
  outputs = [];
}

abbrev pub ledger_abi : Abi
ledger_abi = record {
  methods = add_ledger ∷ deposit_fund ∷ get_ledger ∷ transfer_fund ∷ [];
  events = [];
}

abbrev pub get_account : Method
get_account = record {
  name = "getAccount";
  mutability = some Mutability.view;
  inputs = ("user", address_type) ∷ ("provider", address_type) ∷ [];
  outputs =
      (
        "",
        tuple (
            ("user", address_type)
            ∷ ("provider", address_type)
            ∷ ("balance", uint256_type)
            ∷ ("pendingRefund", uint256_type)
            ∷ ("acknowledged", bool_type)
            ∷ ("generation", uint256_type)
            ∷ ("revokedBitmap", uint256_type)
            ∷ ("validRefundsLength", uint256_type)
            ∷ []),
      )
      ∷ [];
}

abbrev pub acknowledge_tee_signer : Method
acknowledge_tee_signer = record {
  name = "acknowledgeTEESigner";
  mutability = some Mutability.nonpayable;
  inputs = ("provider", address_type) ∷ ("acknowledged", bool_type) ∷ [];
  outputs = [];
}

abbrev pub serving_session_abi : Abi
serving_session_abi = record { methods = get_account ∷ acknowledge_tee_signer ∷ []; events = [] }

abbrev pub mint_method : Method
mint_method = record {
  name = "mint";
  mutability = none;
  inputs =
      ("to", address_type)
      ∷ ("name", string_type)
      ∷ ("description", string_type)
      ∷ ("encryptedMeta", bytes_type)
      ∷ ("resultHash", bytes32_type)
      ∷ ("storageRef", string_type)
      ∷ [];
  outputs = ("tokenId", one uint256_type) ∷ [];
}

abbrev pub update_encrypted_metadata : Method
update_encrypted_metadata = record {
  name = "updateEncryptedMetadata";
  mutability = none;
  inputs = ("tokenId", uint256_type) ∷ ("encryptedMeta", bytes_type) ∷ [];
  outputs = [];
}

abbrev pub owner_of_method : Method
owner_of_method = record {
  name = "ownerOf";
  mutability = some Mutability.view;
  inputs = ("tokenId", uint256_type) ∷ [];
  outputs = ("owner", one address_type) ∷ [];
}

abbrev pub transfer_event : Event
transfer_event = record {
  name = "Transfer";
  inputs =
      ("from", address_type, true)
      ∷ ("to", address_type, true)
      ∷ ("tokenId", uint256_type, true)
      ∷ [];
}

abbrev pub contract_abi : Abi
contract_abi = record {
  methods = mint_method ∷ update_encrypted_metadata ∷ owner_of_method ∷ [];
  events = transfer_event ∷ [];
}

abbrev pub submit_method : Method
submit_method = record {
  name = "submit";
  mutability = none;
  inputs = ("dataRoot", bytes32_type) ∷ ("length", uint256_type) ∷ [];
  outputs = [];
}

abbrev pub flow_data_submit : Event
flow_data_submit = record {
  name = "DataSubmit";
  inputs =
      ("sender", address_type, true)
      ∷ ("dataRoot", bytes32_type, true)
      ∷ ("index", uint256_type, false)
      ∷ [];
}

abbrev pub flow_abi : Abi
flow_abi = record { methods = submit_method ∷ []; events = flow_data_submit ∷ [] }

abbrev pub submit_original_data : Method
submit_original_data = record {
  name = "submitOriginalData";
  mutability = none;
  inputs = ("data", bytes_type) ∷ [];
  outputs = [];
}

abbrev pub da_data_submit : Event
da_data_submit = record {
  name = "DataSubmit";
  inputs =
      ("sender", address_type, true)
      ∷ ("dataRoot", bytes32_type, true)
      ∷ ("epoch", uint256_type, false)
      ∷ ("quorumId", uint256_type, false)
      ∷ [];
}

abbrev pub is_data_available : Method
is_data_available = record {
  name = "isDataAvailable";
  mutability = some Mutability.view;
  inputs = ("dataRoot", bytes32_type) ∷ [];
  outputs = ("available", one bool_type) ∷ [];
}

abbrev pub da_abi : Abi
da_abi = record {
  methods = submit_original_data ∷ is_data_available ∷ [];
  events = da_data_submit ∷ [];
}
