-- ===== src/Examples/Stored.antt =====
-- An event from its bytes to the row that stores it, and a new pair that cannot be stored.
use omnipair_indexer.Base.{[], ◌∷◌, ◌≡◌, ◌↔◌, ok, refl, none, true, false}
use omnipair_indexer.Instruction.{InstructionMetadata, nil}
use omnipair_indexer.Pipes.{process_one}
use omnipair_indexer.Decoder.Instructions.{burn_event, pair_created_event}
use omnipair_indexer.Decoder.Alternatives.{burn_event_alternative}
use omnipair_indexer.Decoder.Alternatives.Encoded.{alternative_of}
use omnipair_indexer.Database.{text, number, time}
use omnipair_indexer.Processors.Rows.{World, Write, row, recording, noting, writes_of}
use omnipair_indexer.Processors.Encoded.{omnipair_pipe, process_one-stores}
use omnipair_indexer.Processors.{process_event}
use omnipair_indexer.Processors.Refused.{refusing, process_event-refused}
use omnipair_indexer.Decoder.Events.{PairCreatedEvent}
use omnipair_indexer.Examples.{metadata}
use omnipair_indexer.Examples.Decoding.{borsh, burn, burn_bytes, burnt, burn_bytes-Encodes}

abbrev world : World
world = record {
  key = λ _. "key";
  signature = λ _. "sig";
  format = λ what error. what;
  now = 9;
  convert = λ a b fee. fee;
}

abbrev place : InstructionMetadata
place = record {
  transaction_metadata = metadata;
  stack_height = 2;
  index = 0;
  absolute_path = 0 ∷ 0 ∷ [];
}

-- The row of the burn.
abbrev burnt_row : Write
burnt_row =
    row "adjust_liquidity"
      (("pair", text "key")
        ∷ ("user_address", text "key")
        ∷ ("amount0", number 1)
        ∷ ("amount1", number 2)
        ∷ ("liquidity", number 3)
        ∷ ("tx_sig", text "sig")
        ∷ ("timestamp", time 9)
        ∷ ("event_type", text "remove")
        ∷ ("slot", number 9)
        ∷ [])
      ("tx_sig" ∷ "timestamp" ∷ [])

process_one-stores_example :
    process_one
      (omnipair_pipe borsh (recording world) (noting world))
      (record { metadata = place; instruction = burnt; inner_instructions = nil })
      []
    ≡ (ok tt, burnt_row ∷ [])
unfolding alternative_of burn_event_alternative writes_of
process_one-stores_example =
    process_one-stores world borsh (burn_event burn) burn_bytes (5 ∷ [])
      (record { metadata = place; instruction = burnt; inner_instructions = nil }) []
      burn_bytes-Encodes refl

abbrev created : PairCreatedEvent
created = record {
  token0 = 1;
  token1 = 2;
  lp_mint = 3;
  token0_decimals = 6;
  token1_decimals = 9;
  rate_model = 4;
  swap_fee_bps = 30;
  half_life = 60;
  fixed_cf_bps = none;
  target_util_start_bps = 3000;
  target_util_end_bps = 7000;
  rate_half_life_ms = 1000;
  min_rate_bps = 1;
  max_rate_bps = 100;
  params_hash = [];
  version = 1;
  metadata = record { signer = 7; pair = 8; slot = 9 };
}

process_event-refused_example :
    ((process_event
        (refusing world "pools" "down")
        (noting world)
        (pair_created_event created)
        place
        (burnt_row ∷ [])).1
      ≡ burnt_row ∷ [])
    × (((process_event
            (refusing world "pools" "down")
            (noting world)
            (pair_created_event created)
            place
            (burnt_row ∷ [])).0
          ≡ ok tt)
        ↔ (true ≡ false))
unfolding writes_of
process_event-refused_example =
    process_event-refused world "pools" "down" (pair_created_event created) place (burnt_row ∷ [])
