-- ===== src/Http/Server/Sockets.antt =====
-- Http/HttpServer.hpp: the sockets and the sessions that a server has.
use ioloop.Prelude.{
  ℕ, ◌≡◌, refl, ap, List, [], ◌∷◌, ◌++◌, append-nil, Option, none, some, ok, Bool, true, arith,
}
use ioloop.Http.Router.{Matcher, Storage}
use ioloop.Http.Session.{Call, Flesh}
use ioloop.Http.Session.Handlers.{Request}
use ioloop.Http.Session.Entry.{OnAction, error_action, recv, recv_buffer}
use ioloop.Http.Session.Serving.{Balanced}
use ioloop.Http.Session.Backpressure
use ioloop.Http.Session.Backpressure.{step-Balanced, Reach-Balanced}
use ioloop.Http.Server.{Accepted, accept_failed, accepted, Server, on_accept, accept_posted}

-- The sockets that accepts bring.
abbrev pub socket_of : Accepted → List ℕ
socket_of accept_failed = []
socket_of (accepted socket) = socket ∷ []

abbrev pub sockets_of : List Accepted → List ℕ
sockets_of [] = []
sockets_of (a ∷ rest) = socket_of a ++ sockets_of rest

-- How many accepts a server that listens has under way.
abbrev pub listening : Option ℕ → ℕ
listening none = 0
listening (some endpoint) = 1

pub sockets_of-append :
    (ps bs : List Accepted) → sockets_of (ps ++ bs) ≡ sockets_of ps ++ sockets_of bs
sockets_of-append [] bs = refl
sockets_of-append (accept_failed ∷ ps) bs = sockets_of-append ps bs
sockets_of-append (accepted x ∷ ps) bs = ap (λ l. x ∷ l) (sockets_of-append ps bs)

module _ {Response : Type 0} where
  abbrev pub sockets : List (ℕ × Flesh Response) → List ℕ
  sockets [] = []
  sockets (e ∷ es) = e.0 ∷ sockets es

  abbrev pub AllBalanced : List (ℕ × Flesh Response) → Type 0
  AllBalanced [] = Unit {0}
  AllBalanced (e ∷ es) = Balanced e.1 × AllBalanced es

  pub sockets-append :
      (es ds : List (ℕ × Flesh Response)) → sockets (es ++ ds) ≡ sockets es ++ sockets ds
  sockets-append [] ds = refl
  sockets-append (e ∷ es) ds = ap (λ l. e.0 ∷ l) (sockets-append es ds)

  pub AllBalanced-append :
      (es ds : List (ℕ × Flesh Response)) → AllBalanced es → AllBalanced ds → AllBalanced (es ++ ds)
  AllBalanced-append [] ds a b = b
  AllBalanced-append (e ∷ es) ds a b = (a.0, AllBalanced-append es ds a.1 b)

  pub sockets-replace :
      (before : List (ℕ × Flesh Response)) (socket : ℕ) (f f' : Flesh Response)
      (after : List (ℕ × Flesh Response))
      → sockets (before ++ (socket, f) ∷ after) ≡ sockets (before ++ (socket, f') ∷ after)
  sockets-replace [] socket f f' after = refl
  sockets-replace (e ∷ es) socket f f' after =
      ap (λ l. e.0 ∷ l) (sockets-replace es socket f f' after)

  pub AllBalanced-replace :
      (matcher : Matcher) (handlers : Request → List Storage → List (Call Response))
      (before : List (ℕ × Flesh Response)) (socket : ℕ) (f f' : Flesh Response)
      (after : List (ℕ × Flesh Response))
      → Backpressure.Step matcher handlers f f'
      → AllBalanced (before ++ (socket, f) ∷ after)
      → AllBalanced (before ++ (socket, f') ∷ after)
  AllBalanced-replace m h [] socket f f' after s a = (step-Balanced m h f f' s a.0, a.1)
  AllBalanced-replace m h (e ∷ es) socket f f' after s a =
      (a.0, AllBalanced-replace m h es socket f f' after s a.1)

  -- What the posted function of an accept does.
  pub record Takes (now : ℕ) (a : Accepted) (s s' : Server Response) : Type 0 where
    pub takes : List (ℕ × Flesh Response)
    pub grown : s'.sessions ≡ s.sessions ++ takes
    pub named : sockets takes ≡ socket_of a
    pub fresh : AllBalanced takes
    pub kept : s'.posted ≡ s.posted
    pub same_accepts : s'.accepts ≡ s.accepts
    pub same_endpoint : s'.endpoint ≡ s.endpoint
    pub same_start : s'.start ≡ s.start

  new_Balanced :
      (now : ℕ) (action : OnAction) → Balanced (recv {Response = Response} true now action)
  unfolding recv recv_buffer
  new_Balanced now action =
      Reach-Balanced
        (record {
          is_match = λ x y. true;
          walk = λ resources. resources;
          shows = λ target n. target;
        })
        (λ r ss. []) now [] action (recv true now action) Backpressure.here

  pub accept_posted-Takes :
      (now : ℕ) (peer_gone : Bool) (a : Accepted) (s s' : Server Response)
      → accept_posted now peer_gone a s ≡ ok s'
      → Takes now a s s'
  unfolding accept_posted on_accept
  accept_posted-Takes now peer_gone accept_failed s s' e = record {
    takes = [];
    grown = ground (arith, e, append-nil s.sessions);
    named = refl;
    fresh = tt;
    kept = ground (arith, e);
    same_accepts = ground (arith, e);
    same_endpoint = ground (arith, e);
    same_start = ground (arith, e);
  }
  accept_posted-Takes now peer_gone (accepted x) s s' e = record {
    takes = (x, recv true now (error_action s.on_error)) ∷ [];
    grown = ground (arith, e);
    named = refl;
    fresh = (new_Balanced now (error_action s.on_error), tt);
    kept = ground (arith, e);
    same_accepts = ground (arith, e);
    same_endpoint = ground (arith, e);
    same_start = ground (arith, e);
  }
