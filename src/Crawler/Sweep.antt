-- ===== src/Crawler/Sweep.antt =====
-- A sweep of the crawler over a history that stands still: page after page until none is left.
use omnipair_indexer.Base.{
  ℕ, zero, suc, ◌<◌, ◌≡◌, ◌∙◌, Option, none, some, List, [], ◌∷◌, ◌++◌, refl, sym, ap, true, length,
  length-append, take, All, All-append, String, arith,
}
use mathlib.Core.Path.{subst}
use omnipair_indexer.Crawler.{
  Fetcher, Calls, last_of, send_all, newest, restart, on_signatures, poll, polls,
}
use omnipair_indexer.Crawler.Page.{last_of-append, send_all-valid, All-split}
use omnipair_indexer.Crawler.History.{
  older_than, newer_than, IsDistinct, older_than-middle, newer_than-rest, newer_than-prefix,
  newer_than-head, append_assoc, append_nil, take-split,
}

-- What the server documents: one page of the signatures between the two that it is asked for,
-- newest first.
abbrev pub Serves :
    (Option String → Option String → Option (List String)) → (limit : ℕ) → List String → Type 0
Serves fetch limit h =
    (before until : Option String)
    → fetch before until ≡ some (take limit (newer_than until (older_than before h)))

-- The state after a sweep that has found `p`.
abbrev pub swept : List String → Option String → List String → Fetcher
swept [] until sent = record {
  last_fetched_signature = none;
  until_signature = until;
  most_recent_signature = none;
  sent = sent;
}
swept (x ∷ p) until sent = record {
  last_fetched_signature = none;
  until_signature = some x;
  most_recent_signature = none;
  sent = sent;
}

-- The state in the middle of a sweep.
abbrev midway : (last until : Option String) → String → List String → Fetcher
midway last until first sent = record {
  last_fetched_signature = last;
  until_signature = until;
  most_recent_signature = some first;
  sent = sent;
}

module _ (c : Calls) (fetch : Option String → Option String → Option (List String)) (limit : ℕ)
    (h : List String) (serves : Serves fetch (suc limit) h) (distinct : IsDistinct h)
    (valid : All (λ x. c.from_str x ≡ some x) h) (willing : (x : String) → c.accepts x ≡ true) where
  -- `p` is what a request after `last` is still to find.
  abbrev Pending : Option String → Option String → List String → Type 0
  Pending last until p =
      (done : List String) × (rest : List String) × (h ≡ done ++ (p ++ rest))
      × (older_than last h ≡ p ++ rest)
      × (newer_than until (p ++ rest) ≡ p)

  -- One page: what it holds, what state it leaves, and what is then to find.
  page :
      (f : Fetcher) (x : String) (p : List String)
      → Pending f.last_fetched_signature f.until_signature (x ∷ p)
      → (q : List String) × (z : String) × (more : List String) × (x ∷ p ≡ q ++ z ∷ more)
        × Pending (some z) f.until_signature more
        × (poll c fetch f ≡ record f {
          last_fetched_signature = some z;
          most_recent_signature = newest c x f.most_recent_signature;
          sent = f.sent ++ (q ++ z ∷ []);
        })
  unfolding poll on_signatures
  page f x p (done, rest, whole, older, newer) =
      let s = take-split limit x p in
      let q = s.0 in
      let z = s.1 in
      let more = s.2 in
      let asked : fetch f.last_fetched_signature f.until_signature
          ≡ some (take (suc limit) (x ∷ p)) =
        serves _ _
        ∙ ap (λ o. some (take (suc limit) (newer_than f.until_signature o))) older
        ∙ ap (λ o. some (take (suc limit) o)) newer in
      let middle : h ≡ (done ++ q) ++ z ∷ (more ++ rest) =
        whole
        ∙ ap (λ o. done ++ (o ++ rest)) s.4
        ∙ ap (λ o. done ++ o) (append_assoc q (z ∷ more) rest)
        ∙ sym (append_assoc done q (z ∷ (more ++ rest))) in
      let seen =
        All-split _ (done ++ q) (z ∷ (more ++ rest))
          (subst (All (λ y. c.from_str y ≡ some y)) middle valid) in
      let good : All (λ y. c.from_str y ≡ some y) (q ++ z ∷ []) =
        All-append _ q (z ∷ []) (All-split _ done q seen.0).1 (seen.1.0, tt) in
      let joined : (q ++ z ∷ []) ++ (more ++ rest) ≡ (x ∷ p) ++ rest =
        append_assoc q (z ∷ []) (more ++ rest)
        ∙ sym (append_assoc q (z ∷ more) rest)
        ∙ ap (λ o. o ++ rest) (sym s.4) in
      let last : last_of c (take (suc limit) (x ∷ p)) ≡ some z =
        ap (last_of c) s.3 ∙ last_of-append c q z ∙ seen.1.0 in
      let sent : send_all c (take (suc limit) (x ∷ p)) ≡ q ++ z ∷ [] =
        ap (send_all c) s.3 ∙ send_all-valid c (q ++ z ∷ []) good willing in
      (
        q,
        z,
        more,
        s.4,
        (
          (done ++ q) ++ z ∷ [],
          rest,
          middle ∙ sym (append_assoc (done ++ q) (z ∷ []) (more ++ rest)),
          ap (older_than (some z)) middle
              ∙ older_than-middle (done ++ q) z (more ++ rest) (subst IsDistinct middle distinct),
          newer_than-rest f.until_signature (q ++ z ∷ []) (more ++ rest) more (
              ap (newer_than f.until_signature) joined
              ∙ newer
              ∙ s.4
              ∙ sym (append_assoc q (z ∷ []) more)),
        ),
        ap (λ o. elim o [ none ↦ f | some signatures ↦ on_signatures c signatures f ]) asked
            ∙ ap
                (λ o. record f {
                  last_fetched_signature = o;
                  most_recent_signature = newest c x f.most_recent_signature;
                  sent = f.sent ++ send_all c (take (suc limit) (x ∷ p));
                })
                last
            ∙ ap
                (λ o. record f {
                  last_fetched_signature = some z;
                  most_recent_signature = newest c x f.most_recent_signature;
                  sent = f.sent ++ o;
                })
                sent,
      )

  -- Nothing is left: the request finds no signature.
  last_page :
      (f : Fetcher)
      → Pending f.last_fetched_signature f.until_signature []
      → poll c fetch f ≡ restart f
  unfolding poll on_signatures
  last_page f (done, rest, whole, older, newer) =
      ap (λ o. elim o [ none ↦ f | some signatures ↦ on_signatures c signatures f ])
        (serves f.last_fetched_signature f.until_signature
          ∙ ap (λ o. some (take (suc limit) (newer_than f.until_signature o))) older
          ∙ ap (λ o. some (take (suc limit) o)) newer)

  -- Once a sweep is over, the next polls find nothing and change nothing.
  rest_polls :
      (n : ℕ) (until : Option String) (sent : List String)
      → newer_than until h ≡ []
      → polls c fetch n (swept [] until sent) ≡ swept [] until sent
  unfolding polls older_than restart
  rest_polls zero until sent none_left = refl
  rest_polls (suc n) until sent none_left =
      ap (polls c fetch n) (last_page (swept [] until sent) ([], h, refl, refl, none_left))
      ∙ rest_polls n until sent none_left

  -- The rest of a sweep that has seen `first`, the newest signature of all.
  sweep_rest :
      (n : ℕ) (first : String) (others : List String) (last until : Option String)
      (sent p : List String)
      → h ≡ first ∷ others
      → Pending last until p
      → length p < n
      → polls c fetch n (midway last until first sent) ≡ swept [] (some first) (sent ++ p)
  unfolding polls restart newest
  sweep_rest zero first others last until sent p whole pending room = ground arith
  sweep_rest (suc n) first others last until sent [] whole pending room =
      ap (polls c fetch n) (last_page (midway last until first sent) pending)
      ∙ rest_polls n (some first) sent
          (ap (newer_than (some first)) whole ∙ newer_than-head first others)
      ∙ ap (swept [] (some first)) (sym (append_nil sent))
  sweep_rest (suc n) first others last until sent (x ∷ p) whole pending room =
      let step = page (midway last until first sent) x p pending in
      let found : List String = step.0 ++ step.1 ∷ [] in
      ap (polls c fetch n) step.5
      ∙ sweep_rest n first others (some step.1) until (sent ++ found) step.2 whole step.4
          (omega (arith, room, ap length step.3, length-append step.0 (step.1 ∷ step.2)))
      ∙ ap (swept [] (some first)) (append_assoc sent found step.2)
      ∙ ap (λ o. swept [] (some first) (sent ++ o))
          (append_assoc step.0 (step.1 ∷ []) step.2 ∙ sym step.3)

  sweep_from :
      (n : ℕ) (until : Option String) (sent p : List String)
      → newer_than until h ≡ p
      → length p < n
      → polls c fetch n (swept [] until sent) ≡ swept p until (sent ++ p)
  unfolding polls newest older_than
  sweep_from zero until sent p found room = ground arith
  sweep_from (suc n) until sent [] found room =
      rest_polls (suc n) until sent found ∙ ap (swept [] until) (sym (append_nil sent))
  sweep_from (suc n) until sent (x ∷ p) found room =
      let rest = (newer_than-prefix until h).0 in
      let split = (newer_than-prefix until h).1 in
      let whole : h ≡ (x ∷ p) ++ rest = split ∙ ap (λ o. o ++ rest) found in
      let pending : Pending none until (x ∷ p) =
        ([], rest, whole, whole, ap (newer_than until) (sym whole) ∙ found) in
      let step = page (swept [] until sent) x p pending in
      let seen : List String = step.0 ++ step.1 ∷ [] in
      ap (polls c fetch n) step.5
      ∙ ap
          (λ o. polls c fetch n (record {
            last_fetched_signature = some step.1;
            until_signature = until;
            most_recent_signature = o;
            sent = sent ++ seen;
          }))
          (subst (All (λ y. c.from_str y ≡ some y)) whole valid).0
      ∙ sweep_rest n x (p ++ rest) (some step.1) until (sent ++ seen) step.2 whole step.4
          (omega (arith, room, ap length step.3, length-append step.0 (step.1 ∷ step.2)))
      ∙ ap (swept [] (some x)) (append_assoc sent seen step.2)
      ∙ ap (λ o. swept [] (some x) (sent ++ o))
          (append_assoc step.0 (step.1 ∷ []) step.2 ∙ sym step.3)

  -- Let the server serve pages of at least one signature of a history in which no signature stands
  -- twice, all of them can be parsed, and the channel takes them. Then a crawler that starts with
  -- no page behind it and polls more times than there are signatures newer than its `until`
  -- signature sends exactly those, each once, newest first, and goes on to wait for
  -- signatures newer than the newest of them.
  pub polls-sweep :
      (until : Option String) (sent : List String) (n : ℕ)
      → length (newer_than until h) < n
      → polls c fetch n (swept [] until sent)
        ≡ swept (newer_than until h) until (sent ++ newer_than until h)
  polls-sweep until sent n room = sweep_from n until sent (newer_than until h) refl room
