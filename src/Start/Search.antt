-- ===== src/Start/Search.antt =====
-- The search of indexer/src/datasources.rs for the signature at a slot, page by page.
use mathlib.Core.Path.{subst}
use native.Mathlib.Decide.{dec_le}
use omnipair_indexer.Base.{
  ℕ, zero, suc, ◌*◌, ◌≤◌, ◌<◌, Option, none, some, List, [], ◌∷◌, ◌++◌, length, length-append, take,
  All, String, ◌≡◌, ◌∙◌, refl, sym, ap, arith,
}
use omnipair_indexer.Start.{
  SignatureInfo, Rpc, first_at, on_page, search_loop, find_signature_at_slot,
}
use omnipair_indexer.Start.Page.{
  older, IsDistinct, IsAbove, older-middle, first_at-reached, first_at-above, last-append,
  page-split, ServesBefore, mul_step, assoc, All-split,
}

module _ (r : Rpc) (limit target : ℕ) (h : List SignatureInfo)
    (serves : ServesBefore r (suc limit) h) (distinct : IsDistinct h)
    (valid : All (λ (x : SignatureInfo). r.parse x.signature ≡ some x.signature) h) where
  -- `p` is what a request before `before` is still to look at.
  abbrev Remains : Option String → List SignatureInfo → Type 0
  Remains before p = (done : List SignatureInfo) × (h ≡ done ++ p) × (older before h ≡ p)

  -- Beyond a page that ends in `z`, what is behind `z` remains.
  Remains-next :
      (before : Option String) (q : List SignatureInfo) (z : SignatureInfo)
      (more : List SignatureInfo)
      → Remains before ((q ++ z ∷ []) ++ more)
      → Remains (some z.signature) more × (r.parse z.signature ≡ some z.signature)
  Remains-next before q z more (done, whole, rest) =
      let middle : h ≡ (done ++ q) ++ z ∷ more =
        whole ∙ ap (λ o. done ++ o) (assoc q (z ∷ []) more) ∙ sym (assoc done q (z ∷ more)) in
      let seen = All-split _ (done ++ q) (z ∷ more) (
        subst (All (λ (y : SignatureInfo). r.parse y.signature ≡ some y.signature)) middle valid) in
      (
        (
          (done ++ q) ++ z ∷ [],
          middle ∙ sym (assoc (done ++ q) (z ∷ []) more),
          ap (older (some z.signature)) middle
              ∙ older-middle (done ++ q) z more (subst IsDistinct middle distinct),
        ),
        seen.1.0,
      )

  take_some :
      (front : List SignatureInfo) (x : SignatureInfo) (back : List SignatureInfo)
      → 0 < length (take (suc limit) (front ++ x ∷ back))
  take_some [] x back = omega arith
  take_some (y ∷ front) x back = omega arith

  asked :
      (before : Option String) (p : List SignatureInfo)
      → older before h ≡ p
      → r.signatures_before (suc limit) before ≡ some (take (suc limit) p)
  asked before p rest = serves before ∙ ap (λ o. some (take (suc limit) o)) rest

  -- A page of signatures above the slot leads on behind its last one.
  on_page-above :
      (q : List SignatureInfo) (z : SignatureInfo) (go_on : String → Option String)
      → All (IsAbove target) (q ++ z ∷ [])
      → r.parse z.signature ≡ some z.signature
      → on_page r target (q ++ z ∷ []) go_on ≡ go_on z.signature
  unfolding on_page
  on_page-above q z go_on above parsed =
      ground (arith, first_at-above target (q ++ z ∷ []) above, last-append q z)

  on_page-found :
      (page : List SignatureInfo) (x : SignatureInfo) (go_on : String → Option String)
      → first_at target page ≡ some x
      → r.parse x.signature ≡ some x.signature
      → on_page r target page go_on ≡ some x.signature
  unfolding on_page
  on_page-found page x go_on found parsed = ground arith

  -- A round of the loop on a page that is not empty.
  search_round :
      (n : ℕ) (before : Option String) (page : List SignatureInfo)
      → r.signatures_before (suc limit) before ≡ some page
      → 0 < length page
      → search_loop r (suc limit) target (suc n) before
        ≡ on_page r target page (λ s. search_loop r (suc limit) target n (some s))
  unfolding search_loop
  search_round n before [] got some_left = absurd (omega arith)
  search_round n before (x ∷ page) got some_left = rw (search_loop, got) refl

  search_loop-found :
      (n : ℕ) (before : Option String) (front : List SignatureInfo) (x : SignatureInfo)
      (back : List SignatureInfo)
      → Remains before (front ++ x ∷ back)
      → All (IsAbove target) front
      → x.slot ≤ target
      → length front < n * suc limit
      → search_loop r (suc limit) target n before ≡ some x.signature
  search_loop-found zero before front x back remains above at room = absurd (omega arith)
  search_loop-found (suc n) before front x back remains above at room =
      elim (dec_le (length front) limit) [
        | yes near ↦
            search_round n before (take (suc limit) (front ++ x ∷ back))
              (asked before (front ++ x ∷ back) remains.2) (take_some front x back)
            ∙ on_page-found (take (suc limit) (front ++ x ∷ back)) x
                (λ s. search_loop r (suc limit) target n (some s))
                (first_at-reached target limit front x back above at near)
                (All-split _ (remains.0 ++ front) (x ∷ back) (
                  subst (All (λ (y : SignatureInfo). r.parse y.signature ≡ some y.signature))
                    (remains.1 ∙ sym (assoc remains.0 front (x ∷ back))) valid)).1.0
        | no far ↦
            let s = page-split limit front (omega (arith, far)) in
            let page : List SignatureInfo = s.0 ++ s.1 ∷ [] in
            let rest : front ++ x ∷ back ≡ page ++ (s.2 ++ x ∷ back) =
              ap (λ o. o ++ x ∷ back) s.3 ∙ assoc page s.2 (x ∷ back) in
            let next =
              Remains-next before s.0 s.1 (s.2 ++ x ∷ back) (subst (Remains before) rest remains) in
            let parts = All-split _ page s.2 (subst (All (IsAbove target)) s.3 above) in
            search_round n before page
              (asked before (front ++ x ∷ back) remains.2 ∙ ap some (s.5 (x ∷ back)))
              (omega (arith, length-append s.0 (s.1 ∷ [])))
            ∙ on_page-above s.0 s.1 (λ k. search_loop r (suc limit) target n (some k)) parts.0
                next.1
            ∙ search_loop-found n (some s.1.signature) s.2 x back next.0 parts.1 at (
                omega (
                  arith,
                  room,
                  mul_step n (suc limit),
                  s.4,
                  ap length s.3,
                  length-append s.0 (s.1 ∷ []),
                  length-append page s.2,
                ))
      ]

  -- With all pages that it asks for above the slot, the loop ends with nothing.
  pub search_loop-missed :
      (n : ℕ) (before : Option String) (seen rest : List SignatureInfo)
      → Remains before (seen ++ rest)
      → All (IsAbove target) seen
      → n * suc limit ≤ length seen
      → search_loop r (suc limit) target n before ≡ none
  unfolding search_loop
  search_loop-missed zero before seen rest remains above room = refl
  search_loop-missed (suc n) before seen rest remains above room =
      let s = page-split limit seen (omega (arith, room, mul_step n (suc limit))) in
      let page : List SignatureInfo = s.0 ++ s.1 ∷ [] in
      let split : seen ++ rest ≡ page ++ (s.2 ++ rest) =
        ap (λ o. o ++ rest) s.3 ∙ assoc page s.2 rest in
      let next = Remains-next before s.0 s.1 (s.2 ++ rest) (subst (Remains before) split remains) in
      let parts = All-split _ page s.2 (subst (All (IsAbove target)) s.3 above) in
      search_round n before page (asked before (seen ++ rest) remains.2 ∙ ap some (s.5 rest))
        (omega (arith, length-append s.0 (s.1 ∷ [])))
      ∙ on_page-above s.0 s.1 (λ k. search_loop r (suc limit) target n (some k)) parts.0 next.1
      ∙ search_loop-missed n (some s.1.signature) s.2 rest next.0 parts.1 (
          omega (
            arith,
            room,
            mul_step n (suc limit),
            s.4,
            ap length s.3,
            length-append s.0 (s.1 ∷ []),
            length-append page s.2,
          ))

-- Let the server serve the signatures of the program, newest first, each of them once and such that
-- it can be parsed. If fewer than 10 pages of 1000 signatures are above the slot, the search finds
-- the newest signature that is not.
pub find-found :
    (r : Rpc) (target : ℕ) (front : List SignatureInfo) (x : SignatureInfo)
    (back : List SignatureInfo)
    → ServesBefore r 1000 (front ++ x ∷ back)
    → IsDistinct (front ++ x ∷ back)
    → All (λ (y : SignatureInfo). r.parse y.signature ≡ some y.signature) (front ++ x ∷ back)
    → All (IsAbove target) front
    → x.slot ≤ target
    → length front < 10000
    → find_signature_at_slot r target ≡ some x.signature
unfolding find_signature_at_slot older
find-found r target front x back serves distinct valid above at room =
    search_loop-found r 999 target (front ++ x ∷ back) serves distinct valid 10 none front x back
      ([], refl, refl) above at (omega (arith, room))
