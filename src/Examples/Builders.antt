-- ===== src/Examples/Builders.antt =====
-- A pipeline built by a chain of calls, and the daemon's.
use omnipair_indexer.Base.{
  ℕ, List, [], ◌∷◌, ◌≡◌, refl, String, none, some, false, CarbonResult, ok, panic, ◌>>=◌, ltb,
  if◌then◌else◌,
}
use omnipair_indexer.Action.{pure}
use omnipair_indexer.Pipeline.Run.{immediate}
use omnipair_indexer.Pipeline.Builder.{PipelineBuilder, builder, new, build, open_channel}
use omnipair_indexer.Pipeline.Builder.Calls.{
  Call, applied, call_datasource_with_id, call_add_metrics, call_instruction,
  call_set_shutdown_strategy, channel_buffer_size_of,
}
use omnipair_indexer.Pipeline.Builder.Chain.{settled, build-unsized}
use omnipair_indexer.Service.{Args, Parts, from_args, create_pipeline}
use omnipair_indexer.Service.Instance.{create_pipeline-start_block}

abbrev chain : List (Call (List ℕ) String String ℕ)
chain =
    call_datasource_with_id "rpc" "first"
    ∷ call_add_metrics "log"
    ∷ call_instruction {T = ℕ} (λ i. none) (λ input. pure tt)
    ∷ call_datasource_with_id "socket" "second"
    ∷ call_set_shutdown_strategy immediate
    ∷ []

abbrev start : PipelineBuilder (List ℕ) String String ℕ
start = builder

-- tokio's channel of a size.
abbrev bounded : ℕ → CarbonResult (Unit {0})
bounded n = if ltb 0 n then ok tt else panic

build-unsized_example :
    ((build (applied chain new) >>= open_channel bounded) ≡ panic)
    × ((build (applied chain builder) >>= open_channel bounded) ≡ ok tt)
unfolding settled channel_buffer_size_of
build-unsized_example = build-unsized bounded chain refl (λ size. refl)

abbrev parts : Parts (List ℕ) String String
parts = record {
  create_helius_datasource = λ key. key;
  create_transaction_crawler_datasource = λ url block. ok "crawler";
  unique = "id";
  log_metrics = "log";
  decode_instruction = λ i. none;
  process = λ input. pure tt;
}

abbrev args : Args
args = record {
  http_rpc_url = none;
  start_block = some 7;
  rpc_ws_url = none;
  helius_api_key = some "key";
  enable_account_monitoring = false;
  health_port = 8080;
}

create_pipeline-start_block_example :
    create_pipeline {C = ℕ} parts (from_args (λ name. none) (λ s. none) args)
    ≡ create_pipeline {C = ℕ} parts
        (from_args (λ name. none) (λ s. none) (record args { start_block = some 9 }))
create_pipeline-start_block_example =
    create_pipeline-start_block parts (λ name. none) (λ s. none) args (some 9)
      (λ url block. ("crawler", refl))
