-- ===== src/Http/Server/Accepting.antt =====
-- Http/HttpServer.hpp: the steps of a server and of its sessions, and what holds along any run.
use ioloop.Prelude.{
  ℕ, ◌<◌, ◌≡◌, refl, sym, ap, ap₂, ◌∙◌, subst, List, [], ◌∷◌, ◌++◌, append-nil, append_assoc, none,
  ok, Bool, false, arith,
}
use ioloop.Http.Router.{Matcher, Storage}
use ioloop.Http.Session.{Call, Flesh}
use ioloop.Http.Session.Handlers.{Request}
use ioloop.Http.Session.Backpressure
use ioloop.Http.Session.Backpressure.{step-Balanced, Reach-Balanced}
use ioloop.Http.Server.{
  Accepted, Opening, Server, new_server, new_server_on_error, do_accept, loop, start, on_accepted,
  run_posted,
}
use ioloop.Http.Server.Sockets.{
  socket_of, sockets_of, listening, sockets, AllBalanced, sockets-append, sockets_of-append,
  AllBalanced-append, sockets-replace, AllBalanced-replace, Takes, accept_posted-Takes,
}

module _ {Response : Type 0} where
  -- One step of a server, with the sockets that it is given: a call of `start`, an accept that
  -- comes back, a posted function, or a step of one of the sessions, as in Http/Session.
  pub data Step (matcher : Matcher) (handlers : Request → List Storage → List (Call Response))
      (s : Server Response) (xs : List ℕ) (s' : Server Response) : Type 0 where
    started :
        (o : Opening) (endpoint : ℕ)
        → xs ≡ []
        → s' ≡ start o endpoint s
        → Step matcher handlers s xs s'
    came :
        (a : Accepted)
        → 0 < s.accepts
        → xs ≡ socket_of a
        → s' ≡ on_accepted a s
        → Step matcher handlers s xs s'
    ran :
        (now : ℕ) (peer_gone : Bool)
        → xs ≡ []
        → run_posted now peer_gone s.posted s ≡ ok s'
        → Step matcher handlers s xs s'
    served :
        (before : List (ℕ × Flesh Response)) (socket : ℕ) (f f' : Flesh Response)
        (after : List (ℕ × Flesh Response))
        → xs ≡ []
        → s.sessions ≡ before ++ (socket, f) ∷ after
        → Backpressure.Step matcher handlers f f'
        → s' ≡ record s { sessions = before ++ (socket, f') ∷ after }
        → Step matcher handlers s xs s'

  pub data Reach (matcher : Matcher) (handlers : Request → List Storage → List (Call Response))
      (s : Server Response) : List ℕ → Server Response → Type 0 where
    here : Reach matcher handlers s [] s
    next :
        {xs : List ℕ} {s₁ : Server Response} {ys : List ℕ} {s₂ : Server Response}
        → Reach matcher handlers s xs s₁
        → Step matcher handlers s₁ ys s₂
        → Reach matcher handlers s (xs ++ ys) s₂

  -- What a server has made of the sockets that it was given.
  pub record Serves (xs : List ℕ) (s : Server Response) : Type 0 where
    pub given : xs ≡ sockets s.sessions ++ sockets_of s.posted
    pub accepting : s.accepts ≡ listening s.endpoint
    pub unstarted : s.start ≡ false → s.endpoint ≡ none
    pub balanced : AllBalanced s.sessions

  start_keeps :
      (o : Opening) (endpoint : ℕ) (s : Server Response)
      → ((start o endpoint s).sessions ≡ s.sessions) × ((start o endpoint s).posted ≡ s.posted)
  unfolding start loop do_accept
  start_keeps o endpoint s = (ground arith, ground arith)

  start-Serves :
      (o : Opening) (endpoint : ℕ) (xs : List ℕ) (s : Server Response)
      → Serves xs s
      → Serves xs (start o endpoint s)
  unfolding start loop do_accept
  start-Serves o endpoint xs s w =
      let (same, kept) = start_keeps o endpoint s in
      record {
        given = w.given ∙ sym (ap₂ (λ es ps. sockets es ++ sockets_of ps) same kept);
        accepting = grind (arith, w.accepting, w.unstarted);
        unstarted = λ e. absurd (ground (arith, e));
        balanced = subst AllBalanced (sym same) w.balanced;
      }

  came-Serves :
      (a : Accepted) (xs : List ℕ) (s : Server Response)
      → 0 < s.accepts
      → Serves xs s
      → Serves (xs ++ socket_of a) (on_accepted a s)
  unfolding on_accepted do_accept
  came-Serves a xs s l w = record {
    given =
        ap (λ ys. ys ++ socket_of a) w.given
        ∙ append_assoc (sockets s.sessions) (sockets_of s.posted) (socket_of a)
        ∙ ap (λ ys. sockets s.sessions ++ ys)
            (ap (λ ys. sockets_of s.posted ++ ys) (sym (append-nil (socket_of a)))
              ∙ sym (sockets_of-append s.posted (a ∷ [])));
    accepting = omega (arith, l, w.accepting);
    unstarted = w.unstarted;
    balanced = w.balanced;
  }

  Takes-Serves :
      (now : ℕ) (a : Accepted) (ps : List Accepted) (xs : List ℕ) (s s' : Server Response)
      → s.posted ≡ a ∷ ps
      → Takes now a (record s { posted = ps }) s'
      → Serves xs s
      → Serves xs s'
  Takes-Serves now a ps xs s s' e t w = record {
    given =
        w.given
        ∙ ap (λ l. sockets s.sessions ++ sockets_of l) e
        ∙ ap (λ l. sockets s.sessions ++ (l ++ sockets_of ps)) (sym t.named)
        ∙ sym (append_assoc (sockets s.sessions) (sockets t.takes) (sockets_of ps))
        ∙ ap (λ l. l ++ sockets_of ps) (sym (sockets-append s.sessions t.takes))
        ∙ ap₂ (λ es l. sockets es ++ sockets_of l) (sym t.grown) (sym t.kept);
    accepting = t.same_accepts ∙ w.accepting ∙ ap listening (sym t.same_endpoint);
    unstarted = λ k. t.same_endpoint ∙ w.unstarted (sym t.same_start ∙ k);
    balanced =
        subst AllBalanced (sym t.grown) (AllBalanced-append s.sessions t.takes w.balanced t.fresh);
  }

  ran-Serves :
      (now : ℕ) (peer_gone : Bool) (ps : List Accepted) (xs : List ℕ) (s s' : Server Response)
      → s.posted ≡ ps
      → run_posted now peer_gone ps s ≡ ok s'
      → Serves xs s
      → Serves xs s'
  unfolding run_posted
  ran-Serves now peer_gone [] xs s s' e k w = subst (Serves xs) (ground (arith, k)) w
  ran-Serves now peer_gone (a ∷ ps) xs s s' e k w =
      Takes-Serves now a ps xs s s' e
        (accept_posted-Takes now peer_gone a (record s { posted = ps }) s' k) w

  module _ (matcher : Matcher) (handlers : Request → List Storage → List (Call Response)) where
    none_given :
        (xs ys : List ℕ) (s : Server Response) → ys ≡ [] → Serves xs s → Serves (xs ++ ys) s
    none_given xs ys s e w =
        subst (λ l. Serves (xs ++ l) s) (sym e) (subst (λ l. Serves l s) (sym (append-nil xs)) w)

    step-Serves :
        (xs ys : List ℕ) (s s' : Server Response)
        → Step matcher handlers s ys s'
        → Serves xs s
        → Serves (xs ++ ys) s'
    step-Serves xs ys s s' (started o endpoint e k) w =
        none_given xs ys s' e (subst (Serves xs) (sym k) (start-Serves o endpoint xs s w))
    step-Serves xs ys s s' (came a l e k) w =
        subst (λ l. Serves (xs ++ l) s') (sym e)
          (subst (Serves (xs ++ socket_of a)) (sym k) (came-Serves a xs s l w))
    step-Serves xs ys s s' (ran now peer_gone e k) w =
        none_given xs ys s' e (ran-Serves now peer_gone s.posted xs s s' refl k w)
    step-Serves xs ys s s' (served before socket f f' after e q t k) w = none_given xs ys s' e (
        subst (Serves xs) (sym k) (record {
          given =
              w.given
              ∙ ap (λ es. sockets es ++ sockets_of s.posted) (q)
              ∙ ap (λ l. l ++ sockets_of s.posted) (sockets-replace before socket f f' after);
          accepting = w.accepting;
          unstarted = w.unstarted;
          balanced =
              AllBalanced-replace matcher handlers before socket f f' after t
                (subst AllBalanced q w.balanced);
        }))

    reach-Serves :
        (s : Server Response) (w : Serves [] s) (xs : List ℕ) (s' : Server Response)
        → Reach matcher handlers s xs s'
        → Serves xs s'
    reach-Serves s w _ s' here = w
    reach-Serves s w _ s' (next r t) = step-Serves _ _ _ s' t (reach-Serves s w _ _ r)

    -- In any run of a server and of its sessions in which no read of a session fails, each request
    -- is answered at most once, by its handlers before they return, and nothing else sends or starts
    -- a read of a session: every socket that was accepted has one session, in the order in which
    -- they came, or waits for it in the functions that are posted. Each session has at most 16
    -- responses waiting and at most one read under way. One accept is under way from the time at
    -- which the server listens, however many accepts fail, and none before.
    pub Reach-Serves :
        (on_action on_error : Bool) (xs : List ℕ) (s : Server Response)
        → Reach matcher handlers (new_server_on_error on_action on_error) xs s
        → Serves xs s
    unfolding new_server new_server_on_error
    Reach-Serves on_action on_error xs s r =
        reach-Serves (new_server_on_error on_action on_error)
          (record { given = refl; accepting = refl; unstarted = λ e. refl; balanced = tt }) xs s r
