-- ===== src/Session/Mailbox/Outcome.antt =====
-- phira-mp-plus-server/src/session_actor.rs: what the sender of a command may conclude from its outcome.
use phira_mp_plus.Common.{◌≡◌, ◌⊎◌, List, [], ◌∷◌, ◌++◌, false, ◌&&◌, Option, arith}
use phira_mp_plus.Session.Mailbox.{
  RouteError, Job, run_or_deadline, serve, Caller, await_reply, translate_route_result, route,
}

module _ {S R : Type 0} where
  -- A command whose transport stays open has either changed nothing, or its handler has run to its end and
  -- the response is the handler's.
  pub route-state :
      (caller : Caller) (error_response : RouteError → Option R) (job : Job S R) (s : S)
      → (route caller error_response job s).2 ≡ false
      → ((route caller error_response job s).0 ≡ s)
        ⊎ (((route caller error_response job s).0 ≡ (job.handler s).0)
            × ((route caller error_response job s).1 ≡ (job.handler s).1))
  unfolding route run_or_deadline await_reply translate_route_result
  route-state caller error_response job s h = ground arith

  -- A queue in which a command's origin is no longer current: the worker runs what stands before it, and
  -- neither it nor anything behind it.
  pub serve-superseded :
      (before after : List (Job S R)) (job : Job S R) (s : S)
      → job.session_alive && job.origin_current ≡ false
      → (serve (before ++ job ∷ after) s).0 ≡ (serve before s).0
  unfolding serve
  serve-superseded [] after job s h = ground arith
  serve-superseded (j ∷ before) after job s h =
      ground (arith, serve-superseded before after job ((run_or_deadline j s).state))
