-- ===== src/Abi/Laws.antt =====
-- Bindings among others: a call through one of them goes through the list.
use agent_inference_ethden.Base.{◌≡◌, refl, Bool, true, List, ◌∷◌, arith}
use agent_inference_ethden.Base.Int.{eq_ℤ_refl}
use agent_inference_ethden.World.{Tx, View, sent, viewed}
use agent_inference_ethden.World.Keeps.{Keeps}
use agent_inference_ethden.Abi.{
  Binding, accepts_tx, accepts_view, any, sends, reads, is_bound, is_typed,
}

-- A history that is typed stays so behind a call that is bound.
pub is_typed-Keeps :
    (bs : List Binding) → Keeps (λ h. is_typed bs h ≡ true) (λ e. is_bound bs e ≡ true)
unfolding is_typed is_bound
is_typed-Keeps bs = record {
  grow = λ e h b t. ground arith;
  checks = refl;
  reads = refl;
  polls = refl;
  waits = λ d. refl;
  draws = λ n. refl;
  mines = λ hash. refl;
}

-- The binding is in the list.
pub data Bound (b : Binding) : List Binding → Type 0 where
  here : {bs : List Binding} → Bound b (b ∷ bs)
  there : {c : Binding} {bs : List Binding} → Bound b bs → Bound b (c ∷ bs)

any-Bound :
    (test : Binding → Bool) {b : Binding} {bs : List Binding}
    → Bound b bs
    → test b ≡ true
    → any test bs ≡ true
unfolding any
any-Bound test here p = ground arith
any-Bound test (there i) p = let rest = any-Bound test i p in ground arith

module _ {b : Binding} {bs : List Binding} (bound : Bound b bs) where
  sends_lem :
      (tx : Tx)
      → tx.contract ≡ b.contract
      → tx.opts.key ≡ b.key
      → tx.opts.chain_id ≡ b.chain_id
      → accepts_tx b.abi tx ≡ true
      → sends b tx ≡ true
  unfolding sends
  sends_lem tx contract key chain accepted = ground (arith, eq_ℤ_refl b.chain_id)

  -- A transaction of the binding's contract, key and chain that its interface accepts.
  pub is_bound-sent :
      (tx : Tx)
      → tx.contract ≡ b.contract
      → tx.opts.key ≡ b.key
      → tx.opts.chain_id ≡ b.chain_id
      → accepts_tx b.abi tx ≡ true
      → is_bound bs (sent tx) ≡ true
  unfolding is_bound
  is_bound-sent tx contract key chain accepted =
      any-Bound (λ c. sends c tx) bound (sends_lem tx contract key chain accepted)

  reads_lem : (v : View) → v.contract ≡ b.contract → accepts_view b.abi v ≡ true → reads b v ≡ true
  unfolding reads
  reads_lem v contract accepted = ground arith

  pub is_bound-viewed :
      (v : View)
      → v.contract ≡ b.contract
      → accepts_view b.abi v ≡ true
      → is_bound bs (viewed v) ≡ true
  unfolding is_bound
  is_bound-viewed v contract accepted =
      any-Bound (λ c. reads c v) bound (reads_lem v contract accepted)
