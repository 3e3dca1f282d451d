-- ===== src/Agent/Wiring/Laws.antt =====
-- What the wired agent hands to the transport of Hedera for a task.
use agent_inference_ethden.Base.{
  ◌≡◌, refl, ◌∙◌, ap, String, Bytes, Bool, true, false, ok, List, arith,
}
use agent_inference_ethden.World.{History, Effect, published, publications}
use agent_inference_ethden.Hcs.{TaskAssignment, TaskResult}
use agent_inference_ethden.Da.Keeps.{publish-keeps}
use agent_inference_ethden.Storage.Keeps.{upload-keeps}
use agent_inference_ethden.Inft.Keeps.{mint-keeps}
use agent_inference_ethden.Compute.{JobRequest, JobResult}
use agent_inference_ethden.Storage.{Metadata}
use agent_inference_ethden.Inft.{MintRequest}
use agent_inference_ethden.Da.{AuditEvent}
use agent_inference_ethden.Compute.Jobs.Keeps.{submit_job-keeps, get_result-keeps}
use agent_inference_ethden.Compute.Jobs.{manager}
use agent_inference_ethden.Compute.Session.Keeps.{Admits}
use agent_inference_ethden.World.Keeps.{Keeps}
use agent_inference_ethden.Agent.{Services, Agent, process_task}
use agent_inference_ethden.Agent.Laws.{
  submit_failed, result_failed, upload_failed, mint_failed, report_failed, went_well,
  process_task-Pipeline, submitted, answered, stored, minted, report,
}
use agent_inference_ethden.Agent.Wiring.{Outside, Parts, Kept, wired}

-- The calls of the stages before the report leave a measure of the state as it is.
pub record IsSilent {S A : Type 0} (v : Services S) (measure : S → A) : Type 0 where
  pub now : (s : S) → measure (v.now s).1 ≡ measure s
  pub submit_job : (r : JobRequest) (s : S) → measure (v.submit_job r s).1 ≡ measure s
  pub get_result : (id : String) (s : S) → measure (v.get_result id s).1 ≡ measure s
  pub upload :
      (content : Bytes) (meta : Metadata) (s : S) → measure (v.upload content meta s).1 ≡ measure s
  pub mint : (r : MintRequest) (s : S) → measure (v.mint r s).1 ≡ measure s
  pub publish_audit : (e : AuditEvent) (s : S) → measure (v.publish_audit e s).1 ≡ measure s

module _ {S A : Type 0} (v : Services S) (measure : S → A) (silent : IsSilent v measure) where
  module _ (agent_id : String) (task : TaskAssignment) (s : S) where
    pub submitted-silent : measure (submitted v agent_id task s) ≡ measure s
    submitted-silent =
        silent.submit_job _ _ ∙ silent.publish_audit _ _ ∙ silent.now _ ∙ silent.now _

    pub answered-silent : (job : String) → measure (answered v agent_id task s job) ≡ measure s
    answered-silent job = silent.get_result _ _ ∙ submitted-silent

    pub stored-silent :
        (job : String) (result : JobResult)
        → measure (stored v agent_id task s job result) ≡ measure s
    stored-silent job result = silent.upload _ _ _ ∙ answered-silent job

    pub minted-silent :
        (job : String) (result : JobResult) (content : String)
        → measure (minted v agent_id task s job result content) ≡ measure s
    minted-silent job result content = silent.mint _ _ ∙ stored-silent job result

    -- The measure is kept up to the report.
    pub report-silent :
        (job : String) (result : JobResult) (content token : String)
        → measure (report v agent_id task s job result content token).1 ≡ measure s
    report-silent job result content token =
        silent.now _ ∙ silent.publish_audit _ _ ∙ silent.now _ ∙ minted-silent job result content

  -- A task that went well ends in the report of a completed result, and the measure was kept up to
  -- there.
  pub process_task-reports :
      (agent_id : String) (task : TaskAssignment) (a : Agent S)
      → (process_task v agent_id task a).0 ≡ ok tt
      → (answer : TaskResult) × (s : S) × (answer.task_id ≡ task.task_id)
        × (answer.status ≡ "completed")
        × (measure s ≡ measure a.services)
        × ((v.publish_result answer s).0 ≡ ok tt)
        × ((process_task v agent_id task a).1.services ≡ (v.publish_result answer s).1)
  process_task-reports agent_id task a e = elim (process_task-Pipeline v agent_id task a) [
    | submit_failed f q r b ↦ ground arith
    | result_failed j f q q2 r b ↦ ground arith
    | upload_failed j x f q q2 q3 r b ↦ ground arith
    | mint_failed j x c f q q2 q3 q4 r b ↦ ground arith
    | report_failed j x c t f q q2 q3 q4 q5 r b ↦ ground arith
    | went_well j x c t q q2 q3 q4 q5 r b ↦ (
      _,
      _,
      refl,
      refl,
      report-silent agent_id task a.services j x c t,
      q5,
      ap (λ z. z.services) b,
    )
  ]

abbrev is_unpublished : Effect → Bool
is_unpublished (published _ _) = false
is_unpublished _ = true

-- What has been published stays so behind any other effect.
publications-Keeps :
    (ms : List (String × Bytes)) → Keeps (λ h. publications h ≡ ms) (λ e. is_unpublished e ≡ true)
publications-Keeps ms = record {
  grow = λ e h o t. ground arith;
  checks = refl;
  reads = refl;
  polls = refl;
  waits = λ d. refl;
  draws = λ n. refl;
  mines = λ hash. refl;
}

module _ (o : Outside) (p : Parts) where
  abbrev Same : Kept → History → Type 0
  Same s h = publications h ≡ publications s.broker_state.history

  abbrev Unpublished : Effect → Type 0
  Unpublished e = is_unpublished e ≡ true

  unchanged-Keeps : (s : Kept) → Keeps (Same s) Unpublished
  unchanged-Keeps s = publications-Keeps (publications s.broker_state.history)

  session_effects : Admits (manager o.world o.compute_codec p.broker) Unpublished
  session_effects = record {
    asks_ledger = λ user. refl;
    asks_account = λ user provider. refl;
    adds = refl;
    funds = λ provider. refl;
    acknowledges = λ provider. refl;
  }

  pub wired-IsSilent : IsSilent (wired o p) (λ s. publications s.broker_state.history)
  wired-IsSilent = record {
    now = λ s. refl;
    submit_job = λ r s.
        submit_job-keeps o.world o.compute_codec p.broker (Same s) Unpublished (unchanged-Keeps s)
          (λ q. refl) refl session_effects r s.broker_state refl;
    get_result = λ id s.
        get_result-keeps o.world o.compute_codec p.broker (Same s) Unpublished (unchanged-Keeps s)
          (λ q. refl) refl session_effects o.rounds id s.broker_state refl;
    upload = λ content meta s.
        upload-keeps o.world o.storage_codec p.client (Same s) Unpublished (unchanged-Keeps s)
          (λ q. refl) (λ c. refl) content meta s.broker_state.history refl;
    mint = λ r s.
        mint-keeps o.world o.inft_codec p.minter r (Same s) Unpublished (unchanged-Keeps s)
          (λ e. refl) s.broker_state.history refl;
    publish_audit = λ e s.
        publish-keeps o.world p.publisher (Same s) Unpublished (unchanged-Keeps s) (λ q. refl)
          o.marshal_event e s.broker_state.history refl;
  }
