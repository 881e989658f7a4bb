-- ===== src/Session/Mailbox.antt =====
-- phira-mp-plus-server/src/session_actor.rs: the way of a session's command through the mailbox of its
-- session, with its deadlines. `S` is all that the handlers of commands change, and `R` the type of a
-- response; a handler is a function, of which one run is not interrupted in this model: where its time is
-- over, either all or nothing of it has happened.
pub mod Outcome
use phira_mp_plus.Common.{
  ℕ, List, [], ◌∷◌, ◌++◌, Bool, true, false, not, ◌&&◌, ◌||◌, Option, none, some, if◌then◌else◌,
}

-- `MailboxRouteResult`
pub data MailboxRouteResult (R : Type 0) : Type 0 where
  not_enqueued : MailboxRouteResult R
  completed : Option R → MailboxRouteResult R
  uncertain : MailboxRouteResult R

-- How the handling of a command goes against its deadlines: the commit deadline is over before it begins,
-- the handler ends in time, or the response deadline passes while it runs, when it has had its effect or
-- not.
pub data Timing : Type 0 where
  too_late in_time : Timing
  overrun : Bool → Timing

-- The texts of the two errors of routing.
pub data RouteError : Type 0 where
  could_not_be_enqueued outcome_uncertain : RouteError

-- What the worker meets when it takes a command from its queue: whether the session is still there, whether
-- the command's origin is current, and how the handling goes.
pub record Job (S R : Type 0) : Type 0 where
  pub session_alive : Bool
  pub origin_current : Bool
  pub timing : Timing
  pub error_response : Option R
  pub handler : S → S × Option R

-- What the worker does with a command: the new state, the reply if there is one, and whether the origin's
-- transport is closed.
pub record Handled (S R : Type 0) : Type 0 where
  pub state : S
  pub reply : Option (Option R)
  pub closed : Bool

-- What the sender of a command meets: whether the session has a mailbox, whether the mailbox takes the
-- command in time, whether the reply comes in time, and whether the origin is current in the end.
pub record Caller : Type 0 where
  pub has_mailbox : Bool
  pub enqueued : Bool
  pub reply_in_time : Bool
  pub origin_current : Bool

-- `translate_route_result`
unfoldable pub translate_route_result :
    {R : Type 0} → Bool → (RouteError → Option R) → MailboxRouteResult R → Option R
translate_route_result current error_response (completed result) = result
translate_route_result current error_response not_enqueued =
    if current then error_response could_not_be_enqueued else none
translate_route_result current error_response uncertain = error_response outcome_uncertain

module _ {S R : Type 0} where
  -- `run_or_deadline`
  unfoldable pub run_or_deadline : Job S R → S → Handled S R
  run_or_deadline job s = elim (job.timing) [
    | too_late ↦ record { state = s; reply = some (job.error_response); closed = false }
    | in_time ↦ record {
      state = (job.handler s).0;
      reply = some ((job.handler s).1);
      closed = false;
    }
    | overrun committed ↦ record {
      state = if committed then (job.handler s).0 else s;
      reply = some (job.error_response);
      closed = true;
    }
  ]

  -- The commands that are left in the queue of a worker that has stopped get no reply.
  unfoldable pub drop_all : List (Job S R) → S → List (Handled S R)
  drop_all [] s = []
  drop_all (job ∷ jobs) s = record { state = s; reply = none; closed = false } ∷ drop_all jobs s

  -- The loop of `init_session_mailbox`: the worker stops at the first command that may not run.
  unfoldable pub serve : List (Job S R) → S → S × List (Handled S R)
  serve [] s = (s, [])
  serve (job ∷ jobs) s =
      let handled = run_or_deadline job s in
      let rest = serve jobs (handled.state) in
      if job.session_alive && job.origin_current
      then (rest.0, handled ∷ rest.1)
      else (s, drop_all (job ∷ jobs) s)

  -- `route_via_mailbox`, once the worker has handled the command as `h` says; with whether it closes the
  -- origin's transport.
  unfoldable pub await_reply : Bool → Handled S R → MailboxRouteResult R × Bool
  await_reply prompt h = elim (h.reply) [
    | none ↦ (uncertain, true)
    | some result ↦ if prompt then (completed result, false) else (uncertain, true)
  ]

  -- A command from its arrival to its response: what becomes of the state, the response, and whether the
  -- transport is closed.
  unfoldable pub route : Caller → (RouteError → Option R) → Job S R → S → S × Option R × Bool
  route caller error_response job s =
      let handled =
        if job.session_alive && job.origin_current
        then run_or_deadline job s
        else record { state = s; reply = none; closed = false } in
      let awaited = await_reply (caller.reply_in_time) handled in
      if caller.has_mailbox && caller.enqueued
      then (
        handled.state,
        translate_route_result (caller.origin_current) error_response awaited.0,
        handled.closed || awaited.1,
      )
      else (s, translate_route_result (caller.origin_current) error_response not_enqueued, false)
