-- ===== src/Crawler/Page.antt =====
-- One page of signatures that the crawler can parse and that the channel takes.
use omnipair_indexer.Base.{true, some, List, [], ◌∷◌, ◌++◌, ◌≡◌, refl, All, String, arith}
use omnipair_indexer.Crawler.{Calls, last_of, send_all}

pub last_of-append :
    (c : Calls) (q : List String) (z : String) → last_of c (q ++ z ∷ []) ≡ c.from_str z
unfolding last_of
last_of-append c [] z = refl
last_of-append c (x ∷ []) z = refl
last_of-append c (x ∷ (y ∷ q)) z = last_of-append c (y ∷ q) z

pub send_all-valid :
    (c : Calls) (s : List String)
    → All (λ x. c.from_str x ≡ some x) s
    → ((x : String) → c.accepts x ≡ true)
    → send_all c s ≡ s
unfolding send_all
send_all-valid c [] valid willing = refl
send_all-valid c (x ∷ s) valid willing =
    ground (arith, valid.0, willing x, send_all-valid c s valid.1 willing)

pub All-split : (Q : String → Type 0) (a b : List String) → All Q (a ++ b) → All Q a × All Q b
All-split Q [] b h = (tt, h)
All-split Q (x ∷ a) b h = let r = All-split Q a b h.1 in ((h.0, r.0), r.1)
