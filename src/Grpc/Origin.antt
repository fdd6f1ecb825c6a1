-- ===== src/Grpc/Origin.antt =====
-- Where the swaps that the listener of grpc/src/db_listener.rs sends come from, and how many it sends.
use text.Mathlib.Text.{◌==◌ as str_eq}
use omnipair_indexer.Base.{
  ℕ, suc, ◌+◌, ◌≤◌, ◌≡◌, some, List, [], ◌∷◌, String, length, ltb, inl, inr, All, All-append, arith,
  Option-cases, Bool-cases, length-append,
}
use mathlib.Core.Path.{subst}
use omnipair_indexer.Dictionary.{lookup, remove, insert, All-remove}
use omnipair_indexer.Grpc.Listener.{
  SwapsUpdate, SwapNotification, Runtime, Listener, Event, notified, rejected, tick, clients,
  emit_swap, on_notification, timed_out, flush_keys, on_tick, handle, run,
}
use omnipair_indexer.Grpc.Delivery.{no_swaps, priced}

length-remove : {V : Type 0} (k : String) (m : List (String × V)) → length (remove k m) ≤ length m
unfolding remove
length-remove k [] = omega arith
length-remove k ((j, v) ∷ m) = ground (arith, length-remove k m)

length-remove_found :
    {V : Type 0} (k : String) (v : V) (m : List (String × V))
    → lookup k m ≡ some v
    → suc (length (remove k m)) ≤ length m
unfolding lookup remove
length-remove_found k v [] found = cc
length-remove_found k v ((j, w) ∷ m) found = elim (Bool-cases (str_eq j k)) [
  | inl same ↦ ground (arith, same, length-remove k m)
  | inr other ↦ ground (arith, other, length-remove_found k v m (ground (arith, other, found)))
]

module _ {P : Type 0} (Q : SwapsUpdate P → Type 0) where
  -- All swaps, waiting and sent, have the property, and there are at most so many.
  record Holds (n : ℕ) (l : Listener P) : Type 0 where
    waiting : All (λ (e : String × (SwapsUpdate P × ℕ)). Q e.1.0) l.buffer
    sent : All Q l.emitted
    few : length l.buffer + length l.emitted ≤ n

  emit-Holds :
      (n m : ℕ) (k : String) (swap : SwapsUpdate P) (l : Listener P)
      → Q swap
      → Holds n l
      → suc (length (remove k l.buffer) + length l.emitted) ≤ m
      → Holds m (emit_swap swap (record l { buffer = remove k l.buffer }))
  unfolding emit_swap
  emit-Holds n m k swap l q h room =
      let waiting =
        All-remove (λ (e : String × (SwapsUpdate P × ℕ)). Q e.1.0) k l.buffer h.waiting in
      elim (Bool-cases (ltb 0 l.receivers)) [
        | inl served ↦
            rw (emit_swap, served)
              (record {
                waiting = waiting;
                sent = All-append Q l.emitted (swap ∷ []) h.sent (q, tt);
                few = omega (arith, room, length-append l.emitted (swap ∷ []));
              })
        | inr alone ↦
            rw (emit_swap, alone)
              (record { waiting = waiting; sent = h.sent; few = omega (arith, room) })
      ]

  lookup-Holds :
      (k : String) (v : SwapsUpdate P × ℕ) (m : List (String × (SwapsUpdate P × ℕ)))
      → All (λ (e : String × (SwapsUpdate P × ℕ)). Q e.1.0) m
      → lookup k m ≡ some v
      → Q v.0
  unfolding lookup
  lookup-Holds k v [] h e = cc
  lookup-Holds k v ((j, w) ∷ m) h e = elim (Bool-cases (str_eq j k)) [
    | inl same ↦
        subst (λ (x : SwapsUpdate P × ℕ). Q x.0) {x = w} {y = v} (ground (arith, same, e)) h.0
    | inr other ↦ lookup-Holds k v m h.1 (ground (arith, other, e))
  ]

  flush_keys-Holds :
      (n : ℕ) (ks : List String) (l : Listener P) → Holds n l → Holds n (flush_keys ks l)
  unfolding flush_keys
  flush_keys-Holds n [] l h = h
  flush_keys-Holds n (k ∷ ks) l h = elim (Option-cases (lookup k l.buffer)) [
    | inl missing ↦ rw (flush_keys, missing) (flush_keys-Holds n ks l h)
    | inr ((swap, at), found) ↦
        rw (flush_keys, found)
          (flush_keys-Holds n ks _ (
            emit-Holds n n k swap l (lookup-Holds k (swap, at) l.buffer h.waiting found) h
              (omega (arith, h.few, length-remove_found k (swap, at) l.buffer found))))
  ]

module _ {F P : Type 0} (r : Runtime F P) where
  -- The swaps of the notifications, each with its price, in their order.
  abbrev pub notified_swaps : List (ℕ × Event P) → List (SwapsUpdate P)
  notified_swaps [] = []
  notified_swaps ((now, notified n) ∷ es) = priced r n ∷ notified_swaps es
  notified_swaps ((now, rejected) ∷ es) = notified_swaps es
  notified_swaps ((now, tick) ∷ es) = notified_swaps es
  notified_swaps ((now, clients n) ∷ es) = notified_swaps es

  module _ (Q : SwapsUpdate P → Type 0) where
    on_notification-Holds :
        (n now : ℕ) (e : SwapNotification P) (l : Listener P)
        → Q (priced r e)
        → Holds Q n l
        → Holds Q (suc n) (on_notification r now e l)
    unfolding on_notification insert
    on_notification-Holds n now e l q h =
        let room : suc (length (remove e.swap.tx_sig l.buffer) + length l.emitted) ≤ suc n =
          omega (arith, h.few, length-remove e.swap.tx_sig l.buffer) in
        elim (Bool-cases (str_eq (r.to_uppercase e.op) "INSERT")) [
          | inl ins ↦ rw ins (record {
            waiting = (
              q,
              All-remove (λ (x : String × (SwapsUpdate P × ℕ)). Q x.1.0) e.swap.tx_sig l.buffer
                  h.waiting,
            );
            sent = h.sent;
            few = omega (arith, room);
          })
          | inr other ↦ elim (Bool-cases (str_eq (r.to_uppercase e.op) "UPDATE")) [
            | inl upd ↦
                rw (other, upd) (emit-Holds Q n (suc n) e.swap.tx_sig (priced r e) l q h room)
            | inr unknown ↦
                rw (other, unknown) (emit-Holds Q n (suc n) e.swap.tx_sig (priced r e) l q h room)
          ]
        ]

    run-Holds :
        (timeout n : ℕ) (es : List (ℕ × Event P)) (l : Listener P)
        → All Q (notified_swaps es)
        → Holds Q n l
        → Holds Q (n + length (notified_swaps es)) (run r timeout es l)
    unfolding run handle on_tick
    run-Holds timeout n [] l qs h = record {
      waiting = h.waiting;
      sent = h.sent;
      few = omega (arith, h.few);
    }
    run-Holds timeout n ((now, notified e) ∷ es) l qs h =
        let rest =
          run-Holds timeout (suc n) es (on_notification r now e l) qs.1
            (on_notification-Holds n now e l qs.0 h) in
        record { waiting = rest.waiting; sent = rest.sent; few = omega (arith, rest.few) }
    run-Holds timeout n ((now, rejected) ∷ es) l qs h = run-Holds timeout n es l qs h
    run-Holds timeout n ((now, tick) ∷ es) l qs h =
        run-Holds timeout n es _ qs (flush_keys-Holds Q n (timed_out timeout now l.buffer) l h)
    run-Holds timeout n ((now, clients k) ∷ es) l qs h =
        run-Holds timeout n es _ qs
          (record { waiting = h.waiting; sent = h.sent; few = omega (arith, h.few) })

    -- Whatever the events: what all notified swaps have, each with the price that is computed for
    -- it, all swaps have that were sent; and no more swaps were sent, those that wait included, than
    -- were notified.
    pub run-notified :
        (timeout : ℕ) (es : List (ℕ × Event P))
        → All Q (notified_swaps es)
        → All Q (run r timeout es no_swaps).emitted
          × (length (run r timeout es no_swaps).buffer + length (run r timeout es no_swaps).emitted
              ≤ length (notified_swaps es))
    run-notified timeout es qs =
        let h =
          run-Holds timeout 0 es no_swaps qs
            (record { waiting = tt; sent = tt; few = omega arith }) in
        (h.sent, omega (arith, h.few))
