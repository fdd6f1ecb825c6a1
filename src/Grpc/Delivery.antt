-- ===== src/Grpc/Delivery.antt =====
-- What the listener of grpc/src/db_listener.rs does with the swap of a notification, from one event
-- to the next.
use text.Mathlib.Text.{◌==◌ as str_eq}
use text.Mathlib.TextEquality.{eq_iff}
use omnipair_indexer.Base.{
  ℕ, ◌<◌, Bool, true, false, none, some, List, [], ◌∷◌, ◌++◌, ◌≡◌, ◌≢◌, ◌⊎◌, ◌||◌, refl, inl, inr,
  String, any, All, ltb, arith, Option-cases, Bool-cases,
}
use omnipair_indexer.Dictionary.{lookup, remove, insert, lookup-insert, lookup-remove, All-remove}
use omnipair_indexer.Grpc.Listener.{
  SwapsUpdate, SwapNotification, Runtime, Listener, Event, price_of, notified, rejected, tick,
  clients, emit_swap, on_notification, timed_out, flush_keys, on_tick, handle, run,
}

module _ {P : Type 0} where
  -- The key of a buffered swap is its signature.
  abbrev pub IsKeyed : String × (SwapsUpdate P × ℕ) → Type 0
  IsKeyed (k, (swap, at)) = swap.tx_sig ≡ k

  abbrev pub sent : String → List (SwapsUpdate P) → Bool
  sent sig = any (λ u. str_eq u.tx_sig sig)

  -- A swap with the signature waits or has been sent.
  abbrev pub Known : String → Listener P → Type 0
  Known sig l = (lookup sig l.buffer ≢ none) ⊎ (sent sig l.emitted ≡ true)

  -- The event does not leave the listener without clients.
  abbrev pub IsServed : ℕ × Event P → Type 0
  IsServed (now, notified n) = Unit
  IsServed (now, rejected) = Unit
  IsServed (now, tick) = Unit
  IsServed (now, clients n) = 0 < n

  -- The listener at its start.
  abbrev pub no_swaps : Listener P
  no_swaps = record { buffer = []; receivers = 0; emitted = [] }

  sent-append :
      (sig : String) (us : List (SwapsUpdate P)) (u : SwapsUpdate P)
      → sent sig (us ++ u ∷ []) ≡ (sent sig us || str_eq u.tx_sig sig)
  sent-append sig [] u = ground arith
  sent-append sig (x ∷ us) u = ground (arith, sent-append sig us u)

  lookup-IsKeyed :
      (k : String) (v : SwapsUpdate P × ℕ) (m : List (String × (SwapsUpdate P × ℕ)))
      → All IsKeyed m
      → lookup k m ≡ some v
      → v.0.tx_sig ≡ k
  unfolding lookup
  lookup-IsKeyed k v [] h e = cc
  lookup-IsKeyed k v ((j, w) ∷ m) h e = elim (Bool-cases (str_eq j k)) [
    | inl same ↦ ground (arith, same, e, h.0, eq_iff j k)
    | inr other ↦ lookup-IsKeyed k v m h.1 (ground (arith, other, e))
  ]

  -- What is known of the state, carried together; of the swap and the clients unless it is waived.
  abbrev Keeps : Bool → String → Listener P → Type 0
  Keeps waived sig l = All IsKeyed l.buffer × ((waived ≡ true) ⊎ ((0 < l.receivers) × Known sig l))

  emit-Keeps :
      (waived : Bool) (sig k : String) (swap : SwapsUpdate P) (l : Listener P)
      → swap.tx_sig ≡ k
      → Keeps waived sig l
      → Keeps waived sig (emit_swap swap (record l { buffer = remove k l.buffer }))
  unfolding emit_swap
  emit-Keeps waived sig k swap l same h = elim (Bool-cases (ltb 0 l.receivers)) [
    | inl served ↦
        rw (emit_swap, served)
          ((
            All-remove IsKeyed k l.buffer h.0,
            ground (
              arith,
              lookup-remove k sig l.buffer,
              sent-append sig l.emitted swap,
              eq_iff k sig,
              eq_iff swap.tx_sig sig,
            ),
          ))
    | inr alone ↦ rw (emit_swap, alone) ((All-remove IsKeyed k l.buffer h.0, ground (arith, alone)))
  ]

  flush_keys-Keeps :
      (waived : Bool) (sig : String) (ks : List String) (l : Listener P)
      → Keeps waived sig l
      → Keeps waived sig (flush_keys ks l)
  unfolding flush_keys
  flush_keys-Keeps waived sig [] l h = h
  flush_keys-Keeps waived sig (k ∷ ks) l h = elim (Option-cases (lookup k l.buffer)) [
    | inl missing ↦ rw (flush_keys, missing) (flush_keys-Keeps waived sig ks l h)
    | inr ((swap, at), found) ↦
        rw (flush_keys, found)
          (flush_keys-Keeps waived sig ks _
            (emit-Keeps waived sig k swap l (lookup-IsKeyed k (swap, at) l.buffer h.0 found) h))
  ]

  insert-Keeps :
      (waived : Bool) (sig : String) (swap : SwapsUpdate P) (now : ℕ) (l : Listener P)
      → Keeps waived sig l
      → Keeps waived sig (record l { buffer = insert swap.tx_sig (swap, now) l.buffer })
  unfolding insert
  insert-Keeps waived sig swap now l h = (
    (refl, All-remove IsKeyed swap.tx_sig l.buffer h.0),
    ground (arith, h.1, lookup-insert swap.tx_sig sig (swap, now) l.buffer, eq_iff swap.tx_sig sig),
  )

  -- Steps of the listener.
  on_tick-Keeps :
      (waived : Bool) (sig : String) (timeout now : ℕ) (l : Listener P)
      → Keeps waived sig l
      → Keeps waived sig (on_tick timeout now l)
  unfolding on_tick
  on_tick-Keeps waived sig timeout now l h =
      flush_keys-Keeps waived sig (timed_out timeout now l.buffer) l h

module _ {F P : Type 0} where
  -- The swap of a notification with its price.
  abbrev pub priced : Runtime F P → SwapNotification P → SwapsUpdate P
  priced r n = record (n.swap) { price = price_of r n.swap.reserve0 n.swap.reserve1 }

  on_notification-Keeps :
      (waived : Bool) (r : Runtime F P) (sig : String) (now : ℕ) (n : SwapNotification P)
      (l : Listener P)
      → Keeps waived sig l
      → Keeps waived sig (on_notification r now n l)
  unfolding on_notification
  on_notification-Keeps waived r sig now n l h =
      elim (Bool-cases (str_eq (r.to_uppercase n.op) "INSERT")) [
        | inl ins ↦ rw ins (insert-Keeps waived sig (priced r n) now l h)
        | inr other ↦ elim (Bool-cases (str_eq (r.to_uppercase n.op) "UPDATE")) [
          | inl upd ↦ rw (other, upd) (emit-Keeps waived sig n.swap.tx_sig (priced r n) l refl h)
          | inr unknown ↦
              rw (other, unknown) (emit-Keeps waived sig n.swap.tx_sig (priced r n) l refl h)
        ]
      ]

  -- A notification makes its signature known, if there are clients.
  on_notification-Known :
      (r : Runtime F P) (now : ℕ) (n : SwapNotification P) (l : Listener P)
      → 0 < l.receivers
      → (0 < (on_notification r now n l).receivers)
        × Known n.swap.tx_sig (on_notification r now n l)
  unfolding on_notification emit_swap
  on_notification-Known r now n l served = ground (
    arith,
    served,
    lookup-insert n.swap.tx_sig n.swap.tx_sig (priced r n, now) l.buffer,
    sent-append n.swap.tx_sig l.emitted (priced r n),
    eq_iff n.swap.tx_sig n.swap.tx_sig,
  )

  handle-Keeps :
      (waived : Bool) (r : Runtime F P) (sig : String) (timeout now : ℕ) (e : Event P)
      (l : Listener P)
      → (waived ≡ true) ⊎ IsServed (now, e)
      → Keeps waived sig l
      → Keeps waived sig (handle r timeout now e l)
  unfolding handle
  handle-Keeps waived r sig timeout now (notified n) l served h =
      on_notification-Keeps waived r sig now n l h
  handle-Keeps waived r sig timeout now rejected l served h = h
  handle-Keeps waived r sig timeout now tick l served h = on_tick-Keeps waived sig timeout now l h
  handle-Keeps waived r sig timeout now (clients n) l served h = (h.0, ground (arith, served, h.1))

  run-Keeps :
      (waived : Bool) (r : Runtime F P) (sig : String) (timeout : ℕ) (es : List (ℕ × Event P))
      (l : Listener P)
      → (waived ≡ true) ⊎ All IsServed es
      → Keeps waived sig l
      → Keeps waived sig (run r timeout es l)
  unfolding run
  run-Keeps waived r sig timeout [] l served h = h
  run-Keeps waived r sig timeout ((now, e) ∷ es) l served h =
      run-Keeps waived r sig timeout es (handle r timeout now e l)
        (elim served [ inl w ↦ inl w | inr each ↦ inr each.1 ])
        (handle-Keeps waived r sig timeout now e l
          (elim served [ inl w ↦ inl w | inr each ↦ inr each.0 ]) h)

  run-append :
      (r : Runtime F P) (timeout : ℕ) (es fs : List (ℕ × Event P)) (l : Listener P)
      → run r timeout (es ++ fs) l ≡ run r timeout fs (run r timeout es l)
  unfolding run
  run-append r timeout [] fs l = refl
  run-append r timeout ((now, e) ∷ es) fs l = run-append r timeout es fs (handle r timeout now e l)

  -- Whatever events come before a notification and after it, of whatever operation it is: if clients
  -- are connected when it comes and at all times after it, then at the end a swap with its signature
  -- waits in the buffer or has been sent to the clients.
  pub run-Known :
      (r : Runtime F P) (timeout now : ℕ) (n : SwapNotification P) (es fs : List (ℕ × Event P))
      → 0 < (run r timeout es no_swaps).receivers
      → All IsServed fs
      → Known n.swap.tx_sig (run r timeout (es ++ (now, notified n) ∷ fs) no_swaps)
  unfolding run handle
  run-Known r timeout now n es fs served each =
      let l = run r timeout es no_swaps in
      let start = run-Keeps true r n.swap.tx_sig timeout es no_swaps (inl refl) (tt, inl refl) in
      let kept = run-Keeps false r n.swap.tx_sig timeout fs (on_notification r now n l) (inr each) (
        (on_notification-Keeps true r n.swap.tx_sig now n l start).0,
        inr (on_notification-Known r now n l served),
      ) in
      rw (run-append r timeout es ((now, notified n) ∷ fs) no_swaps)
        (elim kept.1 [ inl waived ↦ cc | inr known ↦ known.1 ])
