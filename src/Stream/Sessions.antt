-- ===== src/Stream/Sessions.antt =====
-- Run, heartbeatLoop and sendStatusUpdate of stream.go: the receive loop and the heartbeat goroutine
-- of one session, which interleave. An interleaving is a list of actions, and an action that cannot
-- be taken is `none`.
use phylax.Base.{
  ℕ, if◌then◌else◌, Bool, true, false, ◌||◌, Text, codes, List, [], ◌∷◌, ◌++◌, Option, none, some,
  Error, message, wrap, Res, ok, err, panic, ◌⊎◌, text_eq,
}
use phylax.Change.{Change}
use phylax.Stream.{ReplicationStream, Pglogrepl, handle_copy_data}

-- What ReceiveMessage returns: a CopyData, an ErrorResponse (message, detail, code), or another.
pub data BackendMessage : Type 0 where
  copy_data : Text → BackendMessage
  error_response : Text → Text → Text → BackendMessage
  unexpected : BackendMessage

-- Where the loop of Run stands: before its look at hbDone, in ReceiveMessage, or returned.
pub data Position : Type 0 where
  checking receiving : Position
  returned : Res (Unit {0}) → Position

-- The heartbeat goroutine: in its select, returned with an error in hbDone, or returned.
pub data Heartbeat : Type 0 where
  waiting stopped : Heartbeat
  failed : Error → Heartbeat

-- Run and its heartbeat goroutine; `sent` are the positions of the status updates sent.
pub record Session (Payload State : Type 0) : Type 0 where
  pub stream : ReplicationStream Payload State
  pub position : Position
  pub heartbeat : Heartbeat
  pub is_done : Bool
  pub sent : List ℕ

unfoldable pub new_session :
    {Payload State : Type 0} → ReplicationStream Payload State → Session Payload State
new_session s = record {
  stream = s;
  position = checking;
  heartbeat = waiting;
  is_done = false;
  sent = [];
}

pub data Action : Type 0 where
  -- Run: the look at hbDone, a message at a time, an error of ReceiveMessage.
  checks : Action
  receives : ℕ → BackendMessage → Action
  receive_fails : Error → Action
  -- The heartbeat goroutine: a tick or a token in replyNow with what the sending of the status
  -- update returns, and ctx.Done().
  ticks replies : Option Error → Action
  stops : Action
  -- The context is cancelled.
  cancels : Action

unfoldable pub server_error : Text → Text → Text → Error
server_error m detail code = message (
    codes "server error: "
    ++ m
    ++ codes " (detail: "
    ++ detail
    ++ codes ", code: "
    ++ code
    ++ codes ")")

abbrev pub is_over : Position → Bool
is_over (returned r) = true
is_over _ = false

module _ {Payload State : Type 0} where
  -- sendStatusUpdate: the position is read first, whatever the sending returns.
  abbrev status_update : Session Payload State → Option Error → Session Payload State
  status_update w none = record w { sent = w.sent ++ w.stream.last_lsn ∷ [] }
  status_update w (some e) = record w {
    heartbeat = failed (wrap (codes "sending standby status update") e);
  }

  unfoldable pub heartbeat_step :
      Heartbeat → Option Error → Session Payload State → Option (Session Payload State)
  heartbeat_step waiting answer w = some (status_update w answer)
  heartbeat_step stopped answer w = none
  heartbeat_step (failed e) answer w = none

  unfoldable pub reply_step : Option Error → Session Payload State → Option (Session Payload State)
  unfolding heartbeat_step
  reply_step answer w =
      if w.stream.reply_now
      then heartbeat_step w.heartbeat answer
          (record w { stream = record w.stream { reply_now = false } })
      else none

  -- The goroutine's context is done when the caller's is, or when Run has returned.
  unfoldable pub stop_step : Heartbeat → Session Payload State → Option (Session Payload State)
  stop_step waiting w =
      if w.is_done || is_over w.position then some (record w { heartbeat = stopped }) else none
  stop_step stopped w = none
  stop_step (failed e) w = none

  -- The receive from hbDone takes the error out, and the goroutine has returned.
  abbrev pub check_heartbeat : Heartbeat → Session Payload State → Session Payload State
  check_heartbeat (failed e) w = record w { position = returned (err e); heartbeat = stopped }
  check_heartbeat _ w = record w { position = receiving }

  abbrev pub after_message :
      Session Payload State
      → ReplicationStream Payload State × Res (Unit {0})
      → Session Payload State
  after_message w (s, ok done) = record w { stream = s; position = checking }
  after_message w (s, err e) = record w { stream = s; position = returned (err e) }
  after_message w (s, panic) = record w { stream = s; position = returned panic }

  module _ (unmarshal : Text → Error ⊎ Payload) (outbox_table : Text)
      (handler : Change → State → State × Res (Unit {0})) (lib : Pglogrepl) where
    -- The type switch of Run.
    unfoldable pub on_message :
        ℕ
        → BackendMessage
        → ReplicationStream Payload State
        → ReplicationStream Payload State × Res (Unit {0})
    on_message now (copy_data bytes) s =
        handle_copy_data unmarshal outbox_table handler lib now bytes s
    on_message now (error_response m detail code) s = (s, err (server_error m detail code))
    on_message now unexpected s = (s, ok tt)

    -- What Run can do where it stands.
    unfoldable pub run_step :
        Position → Action → Session Payload State → Option (Session Payload State)
    unfolding on_message
    run_step checking checks w = some (check_heartbeat w.heartbeat w)
    run_step receiving (receives now m) w = some (after_message w (on_message now m w.stream))
    run_step receiving (receive_fails e) w =
        some (record w { position = returned (err (wrap (codes "receiving message") e)) })
    run_step _ _ w = none

    unfoldable pub step : Action → Session Payload State → Option (Session Payload State)
    unfolding run_step
    step (ticks answer) w = heartbeat_step w.heartbeat answer w
    step (replies answer) w = reply_step answer w
    step stops w = stop_step w.heartbeat w
    step cancels w = some (record w { is_done = true })
    step action w = run_step w.position action w

    -- Actions that cannot be taken end the run there.
    unfoldable pub run : List Action → Session Payload State → Option (Session Payload State)
    unfolding step
    run [] w = some w
    run (action ∷ actions) w = elim (step action w) [ none ↦ none | some w' ↦ run actions w' ]
