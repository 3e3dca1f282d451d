-- ===== src/Compute/Jobs/Spending.antt =====
-- What the broker pays: only its session does.
use agent_inference_ethden.Base.{ℕ, ◌≡◌, refl, sym, String, Option, none, some, ◌∷◌, arith}
use agent_inference_ethden.World.{World, History, ctx_check, polled, http, amount, paid}
use agent_inference_ethden.World.Keeps.{Keeps}
use agent_inference_ethden.Compute.Types.{JobRequest, Session, State, Broker, Codec}
use agent_inference_ethden.Compute.Session.Spending.{
  IsFrugal, ensure_session-IsFrugal, invalidate-IsFrugal,
}
use agent_inference_ethden.Compute.Catalog.{resolve_provider}
use agent_inference_ethden.Compute.Catalog.Keeps.{resolve_provider-keeps}
use agent_inference_ethden.Compute.Catalog.Frame.{resolve_provider-SameJobs}
use agent_inference_ethden.Compute.Jobs.{manager, submit_job, get_result}
use agent_inference_ethden.Compute.Jobs.Invariant.{Closed, submit_job-Closed, get_result-Closed}
use mathlib.Core.Path.{subst}

-- What has been paid stays so behind an effect that takes nothing.
pub paid-Keeps : (n : ℕ) → Keeps (λ h. paid h ≡ n) (λ e. amount e ≡ 0)
paid-Keeps n = record {
  grow = λ e h o t. omega arith;
  checks = refl;
  reads = refl;
  polls = refl;
  waits = λ d. refl;
  draws = λ n. refl;
  mines = λ hash. refl;
}

-- Without a session nothing is paid.
abbrev pub IsThrifty : Option Session → History → Type 0
IsThrifty none h = paid h ≡ 0
IsThrifty (some session) h = IsFrugal session h

pub paid-IsThrifty :
    (x : Option Session) (g h : History) → paid h ≡ paid g → IsThrifty x g → IsThrifty x h
paid-IsThrifty none g h e f = omega (arith, e, f)
paid-IsThrifty (some session) g h e f = (omega (arith, e, f.0), f.1)

module _ (w : World) (codec : Codec) (b : Broker) where
  abbrev Thrifty : State → Type 0
  Thrifty s = IsThrifty s.session s.history

  resolve_provider-IsThrifty :
      (id : String) (s : State) → Thrifty s → Thrifty (resolve_provider w codec b id s).1
  resolve_provider-IsThrifty id s f =
      let t = (resolve_provider w codec b id s).1 in
      let same =
        resolve_provider-keeps w codec b (λ h. paid h ≡ paid s.history) (λ e. amount e ≡ 0)
          (paid-Keeps (paid s.history)) (λ r. refl) refl id s refl in
      subst (λ x. IsThrifty x t.history) (sym (resolve_provider-SameJobs w codec b id s).1)
        (paid-IsThrifty s.session s.history t.history same f)

  IsThrifty-Closed : Closed w codec b IsThrifty
  IsThrifty-Closed = record {
    checks = λ x h f. paid-IsThrifty x h (ctx_check ∷ h) (omega arith) f;
    polls = λ x h f. paid-IsThrifty x h (polled ∷ h) (omega arith) f;
    asks = λ x r h f. paid-IsThrifty x h (http r ∷ h) (omega arith) f;
    drops = invalidate-IsFrugal;
    renews = λ provider x h f.
        ensure_session-IsFrugal w codec (manager w codec b) provider
          (record { session = x; history = h }) f;
    finds = resolve_provider-IsThrifty;
  }

  pub submit_job-IsThrifty :
      (req : JobRequest) (s : State) → Thrifty s → Thrifty (submit_job w codec b req s).1
  submit_job-IsThrifty = submit_job-Closed w codec b IsThrifty IsThrifty-Closed

  pub get_result-IsThrifty :
      (rounds : ℕ) (id : String) (s : State)
      → Thrifty s
      → Thrifty (get_result w codec b rounds id s).1
  get_result-IsThrifty = get_result-Closed w codec b IsThrifty IsThrifty-Closed
