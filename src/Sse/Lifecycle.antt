-- ===== src/Sse/Lifecycle.antt =====
-- NewServer, ensureInit, httpServer, Serve, ListenAndServe and Shutdown of sse.go, with the calls of Serve and Shutdown
-- interleaved. Of an http.Server there is its in-shutdown flag: its Shutdown sets it and ends the
-- calls of its Serve, and its Serve checks it before it accepts.
pub mod Shared
pub mod Closing
use phylax.Base.{
  ℕ, eqb, if◌then◌else◌, Bool, true, false, Text, codes, length, get_elem?, set, List, [], ◌∷◌,
  ◌++◌, map, Option, none, some, Error,
}

-- The broadcaster, the metrics provider and the http.Server are pointers; `none` is nil.
pub record Server (Caster Provider : Type 0) : Type 0 where
  pub broadcaster : Option Caster
  pub metrics : Option Provider
  pub is_initialised : Bool
  pub srv : Option ℕ

abbrev or_default {ℓ} : {A : Type ℓ} → A → Option A → A
or_default default none = default
or_default default (some a) = a

-- A call of Serve: it has its http.Server, it accepts connections, or it returned ErrServerClosed.
pub data Call : Type 0 where
  obtained serving : ℕ → Call
  closed : Call

-- A Server, the flags of the http.Servers that were made, by address, the calls of Serve, and the
-- calls of Shutdown that have their http.Server and have not yet shut it down.
pub record Lifecycle (Caster Provider : Type 0) : Type 0 where
  pub server : Server Caster Provider
  pub flags : List Bool
  pub calls : List Call
  pub asked : List ℕ

pub data Action : Type 0 where
  -- Serve: httpServer(), then Serve of the http.Server, by call.
  serves : Action
  runs : ℕ → Action
  -- ListenAndServe, with net.Listen's error, which it returns, or else on to Serve.
  listens : Option Error → Action
  -- Shutdown: what it does under the mutex, then Shutdown of the http.Server.
  asks marks : Action
  -- A request to a handler, which calls ensureInit.
  handles : Action

abbrev pub close_call : ℕ → Call → Call
close_call a (serving b) = if eqb a b then closed else serving b
close_call a call = call

unfoldable pub started :
    {Caster Provider : Type 0} → Server Caster Provider → Lifecycle Caster Provider
started s = record { server = s; flags = []; calls = []; asked = [] }

module _ {Caster Provider : Type 0} (caster : Caster) (zero_metrics : Provider) where
  unfoldable pub new_server : Option Caster → Option Provider → Server Caster Provider
  new_server broadcaster metrics = record {
    broadcaster = some (or_default caster broadcaster);
    metrics = some (or_default zero_metrics metrics);
    is_initialised = false;
    srv = none;
  }

  unfoldable pub ensure_init : Server Caster Provider → Server Caster Provider
  ensure_init s = if s.is_initialised then s else record s {
    broadcaster = some (or_default caster s.broadcaster);
    metrics = some (or_default zero_metrics s.metrics);
    is_initialised = true;
  }

  -- The http.Server, made at the first call with the Server's Handler.
  abbrev pub http_server_of : Option ℕ → Lifecycle Caster Provider → Lifecycle Caster Provider × ℕ
  http_server_of (some a) w = (w, a)
  http_server_of none w = (
    record w {
      server = record (ensure_init w.server) { srv = some (length w.flags) };
      flags = w.flags ++ false ∷ [];
    },
    length w.flags,
  )

  unfoldable pub http_server : Lifecycle Caster Provider → Lifecycle Caster Provider × ℕ
  unfolding ensure_init
  http_server w = http_server_of w.server.srv w

  -- Serve of the http.Server refuses its listener once the flag is set.
  abbrev pub accepted : ℕ → Option Bool → Call
  accepted a (some true) = closed
  accepted a _ = serving a

  abbrev pub run_call : ℕ → Option Call → Lifecycle Caster Provider → Lifecycle Caster Provider
  run_call i (some (obtained a)) w = record w {
    calls = set w.calls i (accepted a (get_elem? w.flags a));
  }
  run_call i _ w = w

  abbrev pub mark : List ℕ → Lifecycle Caster Provider → Lifecycle Caster Provider
  mark [] w = w
  mark (a ∷ asked) w = record w {
    flags = set w.flags a true;
    calls = map (close_call a) w.calls;
    asked = asked;
  }

  abbrev pub serve : Lifecycle Caster Provider × ℕ → Lifecycle Caster Provider
  serve (w, a) = record w { calls = w.calls ++ obtained a ∷ [] }

  abbrev pub ask : Lifecycle Caster Provider × ℕ → Lifecycle Caster Provider
  ask (w, a) = record w { asked = w.asked ++ a ∷ [] }

  unfoldable pub step : Action → Lifecycle Caster Provider → Lifecycle Caster Provider
  unfolding http_server
  step serves w = serve (http_server w)
  step (listens (some e)) w = w
  step (listens none) w = serve (http_server w)
  step (runs i) w = run_call i (get_elem? w.calls i) w
  step asks w = ask (http_server w)
  step marks w = mark w.asked w
  step handles w = record w { server = ensure_init w.server }

  unfoldable pub run : List Action → Lifecycle Caster Provider → Lifecycle Caster Provider
  unfolding step
  run [] w = w
  run (a ∷ actions) w = run actions (step a w)
