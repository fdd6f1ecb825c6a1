-- ===== src/Examples/Streams.antt =====
-- The swap listener on concrete notifications; prices are native numbers here.
use text.Mathlib.Text.{◌==◌ as str_eq}
use omnipair_indexer.Base.{
  ℕ, ◌≡◌, List, All, length, ◌+◌, ◌≤◌, [], ◌∷◌, ◌-◌, ◌/◌, ◌<◌, String, none, some, refl, true, ltb,
  if◌then◌else◌, arith,
}
use omnipair_indexer.Dictionary.{lookup, remove}
use omnipair_indexer.Grpc.Listener.{
  SwapsUpdate, SwapNotification, Runtime, Listener, Event, price_of, or_else, notified, tick,
  clients, on_tick, flush_keys, timed_out, emit_swap, handle, run,
}
use omnipair_indexer.Grpc.Delivery.{Known, no_swaps, run-Known}
use omnipair_indexer.Grpc.Origin.{notified_swaps, run-notified}
use omnipair_indexer.Grpc.Timeout.{on_tick-young}

abbrev runtime : Runtime ℕ ℕ
runtime = record {
  to_uppercase = λ s. s;
  parse = λ s. if str_eq s "100" then some 100 else none;
  zero = 0;
  is_greater = λ a b. ltb b a;
  quotient = λ a b. a / b;
  no_price = 0;
}

abbrev swap : (amount_in : String) → SwapsUpdate ℕ
swap amount_in = record {
  id = "1";
  pair = "P";
  user_address = "U";
  is_token0_in = true;
  amount_in = amount_in;
  amount_out = "9";
  reserve0 = "100";
  reserve1 = "100";
  timestamp = "t";
  tx_sig = "sig";
  slot = "5";
  fee_paid0 = "0";
  fee_paid1 = "0";
  ema_price = "1";
  price = 0;
  volume_usd = "0";
}

abbrev inserted : String → SwapNotification ℕ
inserted amount_in = record { op = "INSERT"; swap = swap amount_in }

run-Known_example : Known "sig" (
    run runtime 30
      ((1, clients 1) ∷ (2, notified (inserted "10")) ∷ (3, clients 2) ∷ (40, tick) ∷ [])
      no_swaps)
unfolding run handle
run-Known_example =
    run-Known runtime 30 2 (inserted "10") ((1, clients 1) ∷ []) ((3, clients 2) ∷ (40, tick) ∷ [])
      (omega arith) (omega arith, (tt, tt))

abbrev waiting : Listener ℕ
waiting = record {
  buffer = ("sig", (swap "10", 20)) ∷ ("old", (swap "4", 1)) ∷ [];
  receivers = 1;
  emitted = [];
}

on_tick-young_example : 40 - 20 < 30
unfolding on_tick flush_keys timed_out lookup remove emit_swap
on_tick-young_example = on_tick-young 30 40 20 "sig" (swap "10") waiting refl

-- An INSERT, a tick at which it has timed out, and its UPDATE.
abbrev events : List (ℕ × Event ℕ)
events =
    (1, clients 1)
    ∷ (2, notified (inserted "10"))
    ∷ (40, tick)
    ∷ (41, notified (record { op = "UPDATE"; swap = swap "10" }))
    ∷ []

run-notified_example :
    All (λ (u : SwapsUpdate ℕ). u.price ≡ 1) (run runtime 30 events no_swaps).emitted
    × (length (run runtime 30 events no_swaps).buffer
          + length (run runtime 30 events no_swaps).emitted
        ≤ length (notified_swaps runtime events))
unfolding price_of or_else
run-notified_example =
    run-notified runtime (λ (u : SwapsUpdate ℕ). u.price ≡ 1) 30 events (refl, (refl, tt))
