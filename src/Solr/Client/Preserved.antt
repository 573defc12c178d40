-- ===== src/Solr/Client/Preserved.antt =====
-- What requests preserve: a property of the cluster that each of them keeps holds after all of them.
use solr_collections_operato.Base.{◌≡◌, List, [], ◌∷◌, ◌++◌, All, arith, inl, inr, Option-cases}
use solr_collections_operato.Platform.{Request, Platform, World}
use solr_collections_operato.Solr.Client.Delivery.{after, after_all}

module _ (P : Platform) (Q : P.State → Type 0) where
  abbrev pub Preserves : Request → Type 0
  Preserves req = (s : P.State) → Q s → Q (P.do_request req s).1

  pub preserved-after :
      (req : Request) (w : World P) → Preserves req → Q w.cluster → Q (after P req w).cluster
  unfolding after
  preserved-after req w keeps h = elim (Option-cases (P.new_request req.method req.url)) [
    | inl made ↦ rw (made, after) (keeps w.cluster h)
    | inr (e, bad) ↦ rw (bad, after) h
  ]

  -- The same for a first part of the requests.
  pub preserved-after_all :
      (done left reqs : List Request) (w : World P)
      → done ++ left ≡ reqs
      → All Preserves reqs
      → Q w.cluster
      → Q (after_all P done w).cluster
  unfolding after_all
  preserved-after_all [] left reqs w e keeps h = h
  preserved-after_all (req ∷ done) left [] w e keeps h = absurd (ground arith)
  preserved-after_all (req ∷ done) left (x ∷ reqs) w e (keep, keeps) h =
      let same : req ≡ x = ground arith in
      preserved-after_all done left reqs (after P req w) (ground arith) keeps
        (preserved-after req w (rw same keep) h)

pub All-append :
    {A : Type 0} (Q : A → Type 0) (xs ys : List A) → All Q xs → All Q ys → All Q (xs ++ ys)
All-append Q [] ys h k = k
All-append Q (x ∷ xs) ys (first, h) k = (first, All-append Q xs ys h k)
