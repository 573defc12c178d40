-- ===== src/Solr/Client/Delivery.antt =====
-- What a request does to the world: it is sent if the HTTP library accepts it, and the cluster
-- answers. These are the laws by which the proofs about the reconciler use the client.
use mathlib.Core.List.{append_assoc, append-nil}
use solr_collections_operato.Base.{
  ◌≡◌, refl, String, Bool, false, Option, none, some, List, [], ◌∷◌, ◌++◌, ◌∙◌, arith, eqb, inl,
  inr, Bool-cases, Option-cases,
}
use solr_collections_operato.Base.Outcome.{Outcome, ok, err, panic}
use solr_collections_operato.Base.Exec.{Exec, resume, ◌>>=◌, or_error, log_error}
use solr_collections_operato.Base.Int.{ℤ}
use solr_collections_operato.Solr.{SolrClient}
use solr_collections_operato.Platform.{
  Request, Response, answered, unreachable, Reply, Platform, World, Go,
}
use solr_collections_operato.Solr.Client.Commands.{
  added, with_flag, add_replicas, add_replicas_request,
}
use solr_collections_operato.Solr.Client.{
  parse_error, command, check_request, do_request, require_ok,
}

-- Solr answers an error with a message that `parseError` can read: it does not panic on it.
pub record IsCivil (P : Platform) : Type 0 where
  pub error_text :
      (req : Request) (s : P.State) (resp : Response)
      → (P.do_request req s).0 ≡ answered resp
      → eqb resp.status_code 200 ≡ false
      → (message : String) × (parse_error P resp.body ≡ ok message)

module _ (P : Platform) where
  -- The requests that the HTTP library accepts.
  abbrev pub accepted : List Request → List Request
  accepted [] = []
  accepted (req ∷ reqs) = elim (P.new_request req.method req.url) [
    | none ↦ req ∷ accepted reqs
    | some _ ↦ accepted reqs
  ]

  -- The world after one request.
  unfoldable pub after : Request → World P → World P
  after req w = elim (P.new_request req.method req.url) [
    | none ↦ record { cluster = (P.do_request req w.cluster).1; sent = w.sent ++ (req ∷ []) }
    | some _ ↦ w
  ]

  -- The world after requests that are made one after the other.
  unfoldable pub after_all : List Request → World P → World P
  unfolding after
  after_all [] w = w
  after_all (req ∷ reqs) w = after_all reqs (after req w)

  pub after_all-append :
      (xs ys : List Request) (w : World P) → after_all (xs ++ ys) w ≡ after_all ys (after_all xs w)
  unfolding after_all
  after_all-append [] ys w = refl
  after_all-append (x ∷ xs) ys w = after_all-append xs ys (after x w)

  sent-after :
      (req : Request) (w : World P) (reqs : List Request)
      → (after req w).sent ++ accepted reqs ≡ w.sent ++ accepted (req ∷ reqs)
  unfolding after
  sent-after req w reqs = ground (arith, append_assoc {0} w.sent (req ∷ []) (accepted reqs))

  -- What was sent is what was sent before, and the accepted requests in their order.
  pub sent-after_all :
      (reqs : List Request) (w : World P) → (after_all reqs w).sent ≡ w.sent ++ accepted reqs
  unfolding after_all
  sent-after_all [] w = rw append-nil
  sent-after_all (req ∷ reqs) w = sent-after_all reqs (after req w) ∙ sent-after req w reqs

  -- With a message in the error, checking the status fails at most.
  require_ok_tolerated :
      (what : String) (resp : Response) (w : World P)
      → (eqb resp.status_code 200 ≡ false
          → (message : String) × (parse_error P resp.body ≡ ok message))
      → log_error (require_ok P what resp) w ≡ (ok tt, w)
  unfolding require_ok
  require_ok_tolerated what resp w h = elim (Bool-cases (eqb resp.status_code 200)) [
    | inl fine ↦ rw fine
    | inr bad ↦ rw (bad, (h bad).1)
  ]

  -- The same for an accepted request, whatever the reply.
  sent_tolerated :
      IsCivil P
      → (req : Request) (what : String) (w : World P) (reply : Reply)
      → (P.do_request req w.cluster).0 ≡ reply
      → log_error (do_request P req >>= require_ok P what) w
        ≡ (ok tt, record { cluster = (P.do_request req w.cluster).1; sent = w.sent ++ (req ∷ []) })
  unfolding do_request
  sent_tolerated civil req what w (answered resp) e =
      rw (e, do_request) (require_ok_tolerated what resp _ (civil.error_text req w.cluster resp e))
  sent_tolerated civil req what w (unreachable message) e = rw (e, do_request)

  -- A command whose error is only logged comes back, and has made its request.
  pub log_error-command :
      IsCivil P
      → (req : Request) (what : String) (w : World P)
      → log_error (command P req what) w ≡ (ok tt, after req w)
  unfolding command after check_request
  log_error-command civil req what w = elim (Option-cases (P.new_request req.method req.url)) [
    | inl fine ↦
        rw (fine, after, check_request)
          (sent_tolerated civil req what w (P.do_request req w.cluster).0 refl)
    | inr (e, bad) ↦ rw (bad, after, check_request)
  ]

pub resume_keeps :
    {S A B : Type 0} (f : A → Exec S B) (o : Outcome A) (s : S)
    → ((a : A) → (f a s).1 ≡ s)
    → (resume f (o, s)).1 ≡ s
resume_keeps f (ok a) s h = h a
resume_keeps f (err e) s h = refl
resume_keeps f panic s h = refl

module _ (P : Platform) {B : Type 0} where
  -- A request is checked, and what follows sends it.
  check_after :
      (k : Request → Go P B) (req : Request) (w : World P)
      → (k req w).1
        ≡ record { cluster = (P.do_request req w.cluster).1; sent = w.sent ++ (req ∷ []) }
      → ((check_request P req >>= k) w).1 ≡ after P req w
  unfolding after check_request
  check_after k req w h = elim (Option-cases (P.new_request req.method req.url)) [
    | inl fine ↦ rw (fine, after, check_request) h
    | inr (e, bad) ↦ rw (bad, after, check_request)
  ]

  -- What is made of the response leaves the world alone.
  module _ (f : Response → Go P B)
      (keeps : (resp : Response) (w : World P) → (f resp w).1 ≡ w) where
    pub do_request_after :
        (req : Request) (w : World P) (reply : Reply)
        → (P.do_request req w.cluster).0 ≡ reply
        → ((do_request P req >>= f) w).1
          ≡ record { cluster = (P.do_request req w.cluster).1; sent = w.sent ++ (req ∷ []) }
    unfolding do_request
    do_request_after req w (answered resp) e = rw (e, do_request) (keeps resp _)
    do_request_after req w (unreachable message) e = rw (e, do_request)

    or_error_after :
        (message : String) (req : Request) (w : World P) (reply : Reply)
        → (P.do_request req w.cluster).0 ≡ reply
        → ((or_error message (do_request P req) >>= f) w).1
          ≡ record { cluster = (P.do_request req w.cluster).1; sent = w.sent ++ (req ∷ []) }
    unfolding do_request
    or_error_after message req w (answered resp) e = rw (e, do_request) (keeps resp _)
    or_error_after message req w (unreachable _) e = rw (e, do_request)

module _ (P : Platform) where
  pub require_ok_keeps :
      (what : String) (resp : Response) (w : World P) → (require_ok P what resp w).1 ≡ w
  unfolding require_ok
  require_ok_keeps what resp w = elim (Bool-cases (eqb resp.status_code 200)) [
    | inl fine ↦ rw fine
    | inr bad ↦ rw bad (resume_keeps _ (parse_error P resp.body) w (λ message. refl))
  ]

  -- However a command ends, it has made its request and nothing else.
  pub command-after :
      (req : Request) (what : String) (w : World P) → (command P req what w).1 ≡ after P req w
  unfolding command
  command-after req what w = check_after P _ req w (
      do_request_after P (require_ok P what) (require_ok_keeps what) req w
        (P.do_request req w.cluster).0 refl)

  added_keeps : (name : String) (resp : Response) (w : World P) → (added P name resp w).1 ≡ w
  unfolding added
  added_keeps name resp w = elim (Bool-cases (eqb resp.status_code 200)) [
    | inl fine ↦ rw fine
    | inr bad ↦ rw bad (resume_keeps _ (parse_error P resp.body) w (λ message. ground arith))
  ]

  with_flag_keeps : (r : Outcome (Bool × Option String) × World P) → (with_flag P r).1 ≡ r.1
  with_flag_keeps (ok r, w) = refl
  with_flag_keeps (err e, w) = refl
  with_flag_keeps (panic, w) = refl

  pub add_replicas-after :
      (c : SolrClient) (name : String) (count : ℤ) (w : World P)
      → (add_replicas P c name count w).1 ≡ after P (add_replicas_request c name count) w
  unfolding add_replicas
  add_replicas-after c name count w =
      with_flag_keeps _
      ∙ check_after P _ (add_replicas_request c name count) w (
          or_error_after P (added P name) (added_keeps name) "request failed"
            (add_replicas_request c name count) w _ refl)
