-- ===== src/Abi.antt =====
-- The interfaces of the contracts, as the JSON texts of internal/zerog declare them, and the check of
-- a call against them: that the method is declared, that the arguments are of its types, and that
-- only a payable method is sent an amount.
pub mod Contracts
pub mod Laws
mod Tests
use agent_inference_ethden.Base.{
  ℕ, suc, String, Option, none, some, Bool, true, false, not, ◌&&◌, ◌||◌, List, [], ◌∷◌, length,
  get_elem?, str_eq, ◌==◌, leb, if◌then◌else◌,
}
use agent_inference_ethden.Base.Int.{ℤ, eq_ℤ}
use agent_inference_ethden.World.{
  Value, address, word, uint, big, text, bytes, fixed, flag, services, Log, Tx, View, Effect,
  History, sent, viewed,
}

pub data Elementary : Type 0 where
  address_type uint256_type string_type bytes_type bytes32_type bool_type : Elementary

-- The fields of a tuple, or the inputs of a method, with their names.
abbrev pub Fields : Type 0
Fields = List (String × Elementary)

-- `tuples` is the type `tuple[]`.
pub data AbiType : Type 0 where
  one : Elementary → AbiType
  tuple tuples : Fields → AbiType

pub data Mutability : Type 0 where
  view payable nonpayable : Mutability

-- A method without the key "stateMutability" has none.
pub record Method : Type 0 where
  pub name : String
  pub mutability : Option Mutability
  pub inputs : Fields
  pub outputs : List (String × AbiType)

-- An input of an event: its name, its type, and whether it is indexed.
pub record Event : Type 0 where
  pub name : String
  pub inputs : List (String × Elementary × Bool)

pub record Abi : Type 0 where
  pub methods : List Method
  pub events : List Event

unfoldable pub find_method : String → List Method → Option Method
find_method name [] = none
find_method name (m ∷ ms) = if str_eq m.name name then some m else find_method name ms

-- The order of the fields of the tuple that `Service` stands for.
abbrev pub service_layout : List Elementary
service_layout =
    address_type ∷ string_type ∷ string_type ∷ uint256_type ∷ uint256_type ∷ uint256_type
    ∷ string_type ∷ string_type ∷ string_type ∷ address_type ∷ bool_type ∷ []

-- A value is given for a type, and the other way round.
unfoldable pub is_of : Elementary → Value → Bool
is_of address_type (address _) = true
is_of uint256_type (uint _) = true
is_of uint256_type (big _) = true
is_of string_type (text _) = true
is_of bytes_type (bytes _) = true
is_of bytes32_type (word _) = true
is_of bytes32_type (fixed b) = length b == 32
is_of bool_type (flag _) = true
is_of _ _ = false

unfoldable pub same_type : Elementary → Elementary → Bool
same_type address_type address_type = true
same_type uint256_type uint256_type = true
same_type string_type string_type = true
same_type bytes_type bytes_type = true
same_type bytes32_type bytes32_type = true
same_type bool_type bool_type = true
same_type _ _ = false

unfoldable pub has_layout : Fields → List Elementary → Bool
has_layout [] [] = true
has_layout ((_, t) ∷ fields) (u ∷ layout) = same_type t u && has_layout fields layout
has_layout _ _ = false

-- A tuple that is not in an array is never read by the program, and is no `Value`.
unfoldable pub is_of_type : AbiType → Value → Bool
is_of_type (one t) v = is_of t v
is_of_type (tuples fields) (services _) = has_layout fields service_layout
is_of_type _ _ = false

-- The arguments of a call, one for each input.
unfoldable pub fit : Fields → List Value → Bool
fit [] [] = true
fit ((_, t) ∷ inputs) (v ∷ args) = is_of t v && fit inputs args
fit _ _ = false

-- The results of a call, one for each output.
unfoldable pub results_fit : List (String × AbiType) → List Value → Bool
results_fit [] [] = true
results_fit ((_, t) ∷ outputs) (v ∷ results) = is_of_type t v && results_fit outputs results
results_fit _ _ = false

unfoldable pub takes_amount : Option Mutability → Option ℕ → Bool
takes_amount (some view) _ = false
takes_amount (some payable) _ = true
takes_amount _ none = true
takes_amount _ (some _) = false

unfoldable pub is_view : Option Mutability → Bool
is_view (some view) = true
is_view _ = false

-- A transaction may be sent to a contract with this interface.
unfoldable pub accepts_tx : Abi → Tx → Bool
accepts_tx abi tx = elim (find_method tx.method abi.methods) [
  | none ↦ false
  | some m ↦ fit m.inputs tx.args && takes_amount m.mutability tx.opts.value
]

-- A contract with this interface may be called so without a transaction.
unfoldable pub accepts_view : Abi → View → Bool
accepts_view abi v = elim (find_method v.method abi.methods) [
  | none ↦ false
  | some m ↦ fit m.inputs v.args && is_view m.mutability
]

-- A `bind.BoundContract` with the key and the chain of its owner.
pub record Binding : Type 0 where
  pub contract : ℕ
  pub abi : Abi
  pub key : ℕ
  pub chain_id : ℤ

-- A transaction to the contract, signed with the key for the chain.
unfoldable pub sends : Binding → Tx → Bool
sends b tx =
    tx.contract == b.contract
    && (tx.opts.key == b.key && (eq_ℤ tx.opts.chain_id b.chain_id && accepts_tx b.abi tx))

unfoldable pub reads : Binding → View → Bool
reads b v = v.contract == b.contract && accepts_view b.abi v

-- One of the bindings passes the test.
unfoldable pub any : (Binding → Bool) → List Binding → Bool
any test [] = false
any test (b ∷ bs) = test b || any test bs

-- A transaction or a contract call goes through one of the bindings.
unfoldable pub is_bound : List Binding → Effect → Bool
is_bound bs (sent tx) = any (λ b. sends b tx) bs
is_bound bs (viewed v) = any (λ b. reads b v) bs
is_bound bs _ = true

-- Every transaction and every contract call of the history does.
unfoldable pub is_typed : List Binding → History → Bool
is_typed bs [] = true
is_typed bs (e ∷ h) = is_bound bs e && is_typed bs h

-- Where the topics of a log hold an indexed input: behind the event's id and the indexed inputs
-- before it.
unfoldable pub topic_at : String → List (String × Elementary × Bool) → ℕ → Option ℕ
topic_at name [] i = none
topic_at name ((n, _, true) ∷ inputs) i =
    if str_eq n name then some i else topic_at name inputs (suc i)
topic_at name ((_, _, false) ∷ inputs) i = topic_at name inputs i

unfoldable pub count_indexed : List (String × Elementary × Bool) → ℕ
count_indexed [] = 0
count_indexed ((_, _, true) ∷ inputs) = suc (count_indexed inputs)
count_indexed ((_, _, false) ∷ inputs) = count_indexed inputs

-- The log has the event's id and all of its topics.
unfoldable pub is_event : ℕ → Event → Log → Bool
unfolding count_indexed
is_event id event log =
    leb (suc (count_indexed event.inputs)) (length log.topics)
    && (elim (get_elem? log.topics 0) [ none ↦ false | some topic ↦ topic == id ])

-- The topic that holds the named input.
unfoldable pub read_topic : Event → String → Log → Option ℕ
unfolding topic_at
read_topic event name log = elim (topic_at name event.inputs 1) [
  | none ↦ none
  | some i ↦ get_elem? log.topics i
]

-- The named input of the first log of the event.
unfoldable pub decode : ℕ → Event → String → List Log → Option ℕ
decode id event name [] = none
decode id event name (log ∷ logs) =
    if is_event id event log then read_topic event name log else decode id event name logs
