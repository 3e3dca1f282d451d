-- ===== src/Storage/Keeps.antt =====
-- Frame lemmas of the storage client: what they keep of a history.
use agent_inference_ethden.Base.{String, Bytes, arith}
use agent_inference_ethden.World.{World, History, Effect, Request, sent, http, make_transact_opts}
use agent_inference_ethden.World.Keeps.{Keeps}
use agent_inference_ethden.Storage.Laws.{anchor}
use agent_inference_ethden.Storage.{
  Client, Codec, Metadata, upload_to_node, submit_root, store, upload,
}

module _ (w : World) (codec : Codec) (c : Client) (Holds : History → Type 0)
    (Allowed : Effect → Type 0) (k : Keeps Holds Allowed) (asks : (r : Request) → Allowed (http r))
    (submits : (content : Bytes) → Allowed (sent (anchor w codec c content))) where
  upload_to_node-keeps :
      (content : Bytes) (meta : Metadata) (id : String) (h : History)
      → Holds h
      → Holds (upload_to_node w codec c content meta id h).1
  unfolding upload_to_node
  upload_to_node-keeps content meta id h t = grind (arith, k.grow, asks)

  submit_root-keeps :
      (content : Bytes) (h : History) → Holds h → Holds (submit_root w codec c content h).1
  unfolding submit_root make_transact_opts
  submit_root-keeps content h t = grind (arith, k.grow, k.mines, submits content)

  store-keeps :
      (content : Bytes) (meta : Metadata) (id : String) (h : History)
      → Holds h
      → Holds (store w codec c content meta id h).1
  unfolding store
  store-keeps content meta id h t =
      grind (arith, k.grow, k.checks, upload_to_node-keeps content meta id h)

  pub upload-keeps :
      (content : Bytes) (meta : Metadata) (h : History)
      → Holds h
      → Holds (upload w codec c content meta h).1
  unfolding upload
  upload-keeps content meta h t = grind (arith, k.grow, k.checks, submit_root-keeps, store-keeps)
