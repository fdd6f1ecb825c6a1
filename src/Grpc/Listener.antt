-- ===== src/Grpc/Listener.antt =====
-- `start_db_listener` of grpc/src/db_listener.rs: notifications of inserted swaps wait in a buffer
-- for the enriched update, or for a timeout, and are then sent on to the clients.
use text.Mathlib.Text.{◌==◌ as str_eq}
use omnipair_indexer.Base.{
  ℕ, ◌-◌, Bool, Option, none, some, List, [], ◌∷◌, ◌++◌, leb, ltb, if◌then◌else◌, String,
}
use omnipair_indexer.Dictionary.{lookup, remove, insert}

-- `SwapsUpdate` of grpc/proto; `P` is the type of the prices, a floating-point one.
pub record SwapsUpdate (P : Type 0) : Type 0 where
  pub id : String
  pub pair : String
  pub user_address : String
  pub is_token0_in : Bool
  pub amount_in : String
  pub amount_out : String
  pub reserve0 : String
  pub reserve1 : String
  pub timestamp : String
  pub tx_sig : String
  pub slot : String
  pub fee_paid0 : String
  pub fee_paid1 : String
  pub ema_price : String
  pub price : P
  pub volume_usd : String

pub record SwapNotification (P : Type 0) : Type 0 where
  pub op : String
  pub swap : SwapsUpdate P

-- What the code calls: `str::to_uppercase`, and the floating-point numbers of type `F`: parsing, the
-- constant 0.0, the order and the division, which is then narrowed to a price.
pub record Runtime (F P : Type 0) : Type 0 where
  pub to_uppercase : String → String
  pub parse : String → Option F
  pub zero : F
  pub is_greater : F → F → Bool
  pub quotient : F → F → P
  pub no_price : P

-- The buffer, `tx_sig -> (swap, insert time)`, how many clients receive what is sent, and what
-- has been sent to them.
pub record Listener (P : Type 0) : Type 0 where
  pub buffer : List (String × (SwapsUpdate P × ℕ))
  pub receivers : ℕ
  pub emitted : List (SwapsUpdate P)

-- What `select!` may hand over. `rejected` is a payload that cannot be parsed, or an error of the
-- connection, which is then opened anew. Between two of these, clients may come and go: `clients` is
-- how many there are from then on.
pub data Event (P : Type 0) : Type 0 where
  notified : SwapNotification P → Event P
  rejected : Event P
  tick : Event P
  clients : ℕ → Event P

module _ {P : Type 0} where
  -- Where no client receives, `send` fails and the swap is dropped.
  unfoldable pub emit_swap : SwapsUpdate P → Listener P → Listener P
  emit_swap swap l = if ltb 0 l.receivers then record l { emitted = l.emitted ++ swap ∷ [] } else l

  -- `buffer.iter().filter(…).map(…).collect()`
  unfoldable pub timed_out : (timeout now : ℕ) → List (String × (SwapsUpdate P × ℕ)) → List String
  timed_out timeout now [] = []
  timed_out timeout now ((k, (swap, at)) ∷ m) =
      let rest = timed_out timeout now m in if leb timeout (now - at) then k ∷ rest else rest

  -- `for tx_sig in timed_out`
  unfoldable pub flush_keys : List String → Listener P → Listener P
  unfolding emit_swap
  flush_keys [] l = l
  flush_keys (k ∷ ks) l = flush_keys ks (elim (lookup k l.buffer) [
    | none ↦ l
    | some (swap, _) ↦ emit_swap swap (record l { buffer = remove k l.buffer })
  ])

  unfoldable pub on_tick : (timeout now : ℕ) → Listener P → Listener P
  unfolding timed_out flush_keys
  on_tick timeout now l = flush_keys (timed_out timeout now l.buffer) l

module _ {F : Type 0} where
  -- `Option::unwrap_or`
  unfoldable pub or_else : F → Option F → F
  or_else d none = d
  or_else d (some x) = x

module _ {F P : Type 0} where
  -- The price of a notified swap: reserve1 / reserve0, or 0.0.
  unfoldable pub price_of : Runtime F P → (reserve0 reserve1 : String) → P
  unfolding or_else
  price_of r a b =
      let reserve0 = or_else r.zero (r.parse a) in
      let reserve1 = or_else r.zero (r.parse b) in
      if r.is_greater reserve0 r.zero then r.quotient reserve1 reserve0 else r.no_price

module _ {F P : Type 0} where
  unfoldable pub on_notification : Runtime F P → ℕ → SwapNotification P → Listener P → Listener P
  unfolding emit_swap
  on_notification r now n l =
      let swap : SwapsUpdate P = record (n.swap) {
        price = price_of r n.swap.reserve0 n.swap.reserve1;
      } in
      let op = r.to_uppercase n.op in
      if str_eq op "INSERT"
      then record l { buffer = insert swap.tx_sig (swap, now) l.buffer }
      else if str_eq op "UPDATE"
      then emit_swap swap (record l { buffer = remove swap.tx_sig l.buffer })
      else emit_swap swap (record l { buffer = remove swap.tx_sig l.buffer })

  unfoldable pub handle : Runtime F P → (timeout now : ℕ) → Event P → Listener P → Listener P
  unfolding on_notification on_tick
  handle r timeout now (notified n) l = on_notification r now n l
  handle r timeout now rejected l = l
  handle r timeout now tick l = on_tick timeout now l
  handle r timeout now (clients n) l = record l { receivers = n }

  -- The events of a run, each with its time.
  unfoldable pub run : Runtime F P → ℕ → List (ℕ × Event P) → Listener P → Listener P
  run r timeout [] l = l
  run r timeout ((now, e) ∷ es) l = run r timeout es (handle r timeout now e l)
