-- ===== src/Grpc/Timeout.antt =====
-- The buffer of the listener of grpc/src/db_listener.rs behind a tick.
use text.Mathlib.Text.{◌==◌ as str_eq}
use text.Mathlib.TextEquality.{eq_iff}
use omnipair_indexer.Base.{
  ℕ, ◌-◌, ◌<◌, Bool, true, none, some, List, [], ◌∷◌, ◌≡◌, refl, inl, inr, leb, if◌then◌else◌,
  String, any, arith, Option-cases, Bool-cases,
}
use omnipair_indexer.Dictionary.{lookup, remove, lookup-remove}
use omnipair_indexer.Grpc.Listener.{
  SwapsUpdate, Listener, emit_swap, timed_out, flush_keys, on_tick,
}

abbrev holds : String → List String → Bool
holds k = any (str_eq k)

module _ {P : Type 0} where
  -- A key that timed out is gone, any other keeps its swap.
  lookup-flush_keys :
      (k : String) (ks : List String) (l : Listener P)
      → lookup k (flush_keys ks l).buffer ≡ (if holds k ks then none else lookup k l.buffer)
  unfolding flush_keys emit_swap
  lookup-flush_keys k [] l = refl
  lookup-flush_keys k (j ∷ ks) l = elim (Option-cases (lookup j l.buffer)) [
    | inl missing ↦ ground (arith, missing, lookup-flush_keys k ks l, eq_iff k j)
    | inr ((swap, at), found) ↦ ground (
      arith,
      found,
      lookup-flush_keys k ks (emit_swap swap (record l { buffer = remove j l.buffer })),
      lookup-remove j k l.buffer,
      eq_iff k j,
      eq_iff j k,
    )
  ]

  holds-timed_out :
      (k : String) (timeout now : ℕ) (m : List (String × (SwapsUpdate P × ℕ)))
      (swap : SwapsUpdate P) (at : ℕ)
      → lookup k m ≡ some (swap, at)
      → leb timeout (now - at) ≡ true
      → holds k (timed_out timeout now m) ≡ true
  unfolding lookup timed_out
  holds-timed_out k timeout now [] swap at found old = cc
  holds-timed_out k timeout now ((j, (other, since)) ∷ m) swap at found old =
      elim (Bool-cases (str_eq j k)) [
        | inl same ↦ ground (arith, same, found, old, eq_iff k j, eq_iff j k)
        | inr different ↦ ground (
          arith,
          different,
          found,
          old,
          holds-timed_out k timeout now m swap at (ground (arith, different, found)) old,
        )
      ]

  -- After a tick no swap waits for as long as the timeout or longer.
  pub on_tick-young :
      (timeout now at : ℕ) (k : String) (swap : SwapsUpdate P) (l : Listener P)
      → lookup k (on_tick timeout now l).buffer ≡ some (swap, at)
      → now - at < timeout
  unfolding on_tick
  on_tick-young timeout now at k swap l found =
      let kept = lookup-flush_keys k (timed_out timeout now l.buffer) l in
      elim (Bool-cases (holds k (timed_out timeout now l.buffer))) [
        | inl gone ↦ ground (arith, found, kept, gone)
        | inr stays ↦ elim (Bool-cases (leb timeout (now - at))) [
          | inl old ↦ ground (
            arith,
            stays,
            holds-timed_out k timeout now l.buffer swap at (ground (arith, found, kept, stays)) old,
          )
          | inr young ↦ ground (arith, young)
        ]
      ]
