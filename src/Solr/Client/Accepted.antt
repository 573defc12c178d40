-- ===== src/Solr/Client/Accepted.antt =====
-- When a command of the client succeeds, and when it panics.
use mathlib.Core.Path.{subst}
use solr_collections_operato.Base.{
  ◌≡◌, ◌≢◌, ◌↔◌, refl, sym, ◌∙◌, String, ◌<>◌, none, some, arith, eqb, if◌then◌else◌, Option-cases,
  Bool-cases, inl, inr,
}
use solr_collections_operato.Base.Outcome
use solr_collections_operato.Base.Outcome.{Outcome, ok, err, panic}
use solr_collections_operato.Base.Exec
use solr_collections_operato.Base.Exec.{raise}
use solr_collections_operato.Platform.{
  Request, Response, Reply, answered, unreachable, Platform, World,
}
use solr_collections_operato.Solr.Client.Delivery.{after, command-after}
use solr_collections_operato.Solr.Client.{
  parse_error, command, check_request, do_request, require_ok,
}

raised :
    {S : Type 0} (o : Outcome String) (f : String → String) (s : S)
    → (Exec.resume (λ msg. raise (f msg)) (o, s)).0
      ≡ Outcome.◌>>=◌ {B = Unit {0}} o (λ msg. err (f msg))
raised (ok msg) f s = refl
raised (err e) f s = refl
raised panic f s = refl

module _ (P : Platform) (what : String) where
  -- How a command ends, by the reply.
  abbrev checked : Response → Outcome (Unit {0})
  checked resp =
      if eqb resp.status_code 200
      then ok tt
      else Outcome.◌>>=◌ (parse_error P resp.body)
          λ msg. err (what <> (" [" <> (resp.status <> ("] [" <> (msg <> "]")))))

  abbrev replied : Reply → Outcome (Unit {0})
  replied (unreachable e) = err e
  replied (answered resp) = checked resp

  checked_ok : (resp : Response) → (checked resp ≡ ok tt) ↔ (resp.status_code ≡ 200)
  checked_ok resp = ground arith

  checked_panic :
      (resp : Response)
      → (checked resp ≡ panic) ↔ ((resp.status_code ≢ 200) × (parse_error P resp.body ≡ panic))
  checked_panic resp = ground arith

  require_ok-checked : (resp : Response) (w : World P) → (require_ok P what resp w).0 ≡ checked resp
  unfolding require_ok
  require_ok-checked resp w = elim (Bool-cases (eqb resp.status_code 200)) [
    | inl fine ↦ rw fine refl
    | inr bad ↦ rw bad (raised (parse_error P resp.body) _ w)
  ]

  command-replied :
      (req : Request) (w : World P) (reply : Reply)
      → P.new_request req.method req.url ≡ none
      → (P.do_request req w.cluster).0 ≡ reply
      → (command P req what w).0 ≡ replied reply
  unfolding command
  command-replied req w (unreachable e) fine gone = rw (fine, check_request, gone, do_request) refl
  command-replied req w (answered resp) fine there =
      rw (fine, check_request, there, do_request) (require_ok-checked resp _)

module _ (P : Platform) (what : String) where
  -- The outcomes that are no error come from an answer.
  replied_iff :
      (result : Outcome (Unit {0})) (Q : Response → Type 0)
      → ((e : String) → err e ≢ result)
      → ((resp : Response) → (checked P what resp ≡ result) ↔ Q resp)
      → (reply : Reply)
      → (replied P what reply ≡ result) ↔ ((resp : Response) × (reply ≡ answered resp) × Q resp)
  replied_iff result Q other known (unreachable e) =
      (λ h. absurd (other e h), λ r. let (resp, same, q) = r in ground arith)
  replied_iff result Q other known (answered resp) = (
    λ h. (resp, refl, (known resp).0 h),
    λ r.
        let (x, same, q) = r in
        let back : x ≡ resp = ground arith in (known resp).1 (subst Q back q),
  )

module _ (P : Platform) (req : Request) (what : String) (w : World P) where
  -- The HTTP library accepts the request, and Solr answers it.
  abbrev pub IsAnswered : Response → Type 0
  IsAnswered resp =
      (P.new_request req.method req.url ≡ none) × ((P.do_request req w.cluster).0 ≡ answered resp)

  command-refused :
      (e : String) → P.new_request req.method req.url ≡ some e → (command P req what w).0 ≡ err e
  unfolding command
  command-refused e bad = rw (bad, check_request) refl

  command_iff :
      (result : Outcome (Unit {0})) (Q : Response → Type 0)
      → ((e : String) → err e ≢ result)
      → ((resp : Response) → (checked P what resp ≡ result) ↔ Q resp)
      → ((command P req what w).0 ≡ result) ↔ ((resp : Response) × IsAnswered resp × Q resp)
  command_iff result Q other known = elim (Option-cases (P.new_request req.method req.url)) [
    | inl fine ↦
        let e = command-replied P what req w (P.do_request req w.cluster).0 fine refl in
        let (from, to) = replied_iff P what result Q other known (P.do_request req w.cluster).0 in
        (
          λ h. let (resp, same, q) = from (sym e ∙ h) in (resp, (fine, same), q),
          λ r. let (resp, (ready, same), q) = r in e ∙ to (resp, same, q),
        )
    | inr (message, bad) ↦ (
      λ h. absurd (other message (sym (command-refused message bad) ∙ h)),
      λ r. let (resp, (fine, same), q) = r in ground (arith, bad, fine),
    )
  ]

  -- A command returns without an error exactly when the HTTP library accepts its request and Solr
  -- answers it with 200. It panics exactly when the request is accepted and answered with another
  -- status and a body in which parseError does not find the message that it asserts to be there. In
  -- every case it has made its request, if that is accepted, and no other.
  pub command-outcome :
      ((command P req what w).0 ≡ ok tt
        ↔ ((resp : Response) × IsAnswered resp × (resp.status_code ≡ 200)))
      × ((command P req what w).0 ≡ panic ↔ (
          (resp : Response) × IsAnswered resp
          × ((resp.status_code ≢ 200) × (parse_error P resp.body ≡ panic))))
      × ((command P req what w).1 ≡ after P req w)
  command-outcome = (
    command_iff (ok tt) (λ resp. resp.status_code ≡ 200) (λ e h. ground arith) (checked_ok P what),
    command_iff panic (λ resp. (resp.status_code ≢ 200) × (parse_error P resp.body ≡ panic))
        (λ e h. ground arith) (checked_panic P what),
    command-after P req what w,
  )
