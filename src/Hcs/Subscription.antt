-- ===== src/Hcs/Subscription.antt =====
-- `StartSubscription`, `processMessage` and `HandleTask` of internal/hcs/handler.go beside the
-- main loop that drains the channel, as steps that the runtime may take in any order.
pub mod Laws
pub mod Progress
pub mod Tests
use agent_inference_ethden.Base.{
  ℕ, Bool, true, false, ◌<◌, ◌≡◌, String, Option, none, some, Bytes, List, [], ◌∷◌, ◌++◌, length,
  Error, sentinel, wrap, subscription_failed,
}
use agent_inference_ethden.Hcs.{HandlerConfig, TaskAssignment, Codec, accepted}

-- `make(chan TaskAssignment, 16)`
abbrev pub capacity : ℕ
capacity = 16

-- Where the goroutine of the subscription stands: in its select, in the send of a task, or behind
-- its return.
pub data Mode : Type 0 where
  receiving : Mode
  sending : TaskAssignment → Mode
  returned : Option Error → Mode

-- The lists that nothing in the code keeps, the oldest first: the messages that arrived, the tasks
-- that the subscription and `HandleTask` put into the channel, all that was put there, and what
-- the main loop took out.
pub record Subscription : Type 0 where
  pub mode : Mode
  pub tasks : List TaskAssignment
  pub ended : Option Error
  pub received : List Bytes
  pub forwarded : List TaskAssignment
  pub handed : List TaskAssignment
  pub queued : List TaskAssignment
  pub taken : List TaskAssignment

-- `NewHandler`, and the start of `StartSubscription`: a transport may give no channel.
abbrev start : Bool → Mode
start true = receiving
start false = returned (some (sentinel subscription_failed))

unfoldable pub new_handler : Bool → Subscription
new_handler has_channel = record {
  mode = start has_channel;
  tasks = [];
  ended = none;
  received = [];
  forwarded = [];
  handed = [];
  queued = [];
  taken = [];
}

abbrev pub mode_of : Option TaskAssignment → Mode
mode_of none = receiving
mode_of (some task) = sending task

module _ (codec : Codec) (cfg : HandlerConfig) where
  pub data Step : Subscription → Subscription → Type 0 where
    -- a message of the transport, up to the send
    arrives :
        (s : Subscription) (message : Bytes)
        → s.mode ≡ receiving
        → Step s (record s {
          received = s.received ++ message ∷ [];
          mode = mode_of (accepted codec cfg message);
        })
    -- the send into the channel, which waits for room
    sends :
        (s : Subscription) (task : TaskAssignment)
        → s.mode ≡ sending task
        → length s.tasks < capacity
        → Step s (record s {
          tasks = s.tasks ++ task ∷ [];
          forwarded = s.forwarded ++ task ∷ [];
          queued = s.queued ++ task ∷ [];
          mode = receiving;
        })
    -- the send given up, when the context has ended
    gives_up :
        (s : Subscription) (task : TaskAssignment) (e : Error)
        → s.mode ≡ sending task
        → s.ended ≡ some e
        → Step s (record s { mode = receiving })
    -- `HandleTask` of another goroutine, when it returns nil
    hands :
        (s : Subscription) (task : TaskAssignment)
        → length s.tasks < capacity
        → Step s (record s {
          tasks = s.tasks ++ task ∷ [];
          handed = s.handed ++ task ∷ [];
          queued = s.queued ++ task ∷ [];
        })
    -- the main loop takes the oldest task
    takes :
        (s : Subscription) (task : TaskAssignment) (rest : List TaskAssignment)
        → s.tasks ≡ task ∷ rest
        → Step s (record s { tasks = rest; taken = s.taken ++ task ∷ [] })
    -- the context ends
    cancels : (s : Subscription) (e : Error) → s.ended ≡ none → Step s (record s { ended = some e })
    -- the select sees the end of the context, an error of the transport, or the closed channel
    stops :
        (s : Subscription) (e : Error)
        → s.mode ≡ receiving
        → s.ended ≡ some e
        → Step s (record s { mode = returned (some e) })
    fails :
        (s : Subscription)
        → s.mode ≡ receiving
        → Step s (record s {
          mode = returned (some (wrap "hcs: subscription error: " (sentinel subscription_failed)));
        })
    closes : (s : Subscription) → s.mode ≡ receiving → Step s (record s { mode = returned none })

  pub data Steps : Subscription → Subscription → Type 0 where
    no_step : (s : Subscription) → Steps s s
    and_step : {r s t : Subscription} → Steps r s → Step s t → Steps r t
