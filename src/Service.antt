-- ===== src/Service.antt =====
-- The configuration and the pipeline of the daemon: indexer/src/config.rs, indexer/src/pipeline.rs
-- and `run_indexer_instance` of indexer/src/main.rs.
pub mod Instance
use omnipair_indexer.Base.{
  unwrap_or, ℕ, Bool, true, false, Option, none, some, String, CarbonResult, ok, custom, ok_or,
  ◌>>=◌, ◌⊎◌, inl, inr,
}
use omnipair_indexer.Solana.{Instruction}
use omnipair_indexer.Instruction.{InstructionMetadata, NestedInstructions}
use omnipair_indexer.Action.{Action}
use omnipair_indexer.Datasource.{DatasourceId}
use omnipair_indexer.Pipes.{DecodedInstruction}
use omnipair_indexer.Decoder.Instructions.{OmnipairInstruction}
use omnipair_indexer.Pipeline.Run.{process_pending}
use omnipair_indexer.Pipeline.Builder.{
  Built, builder, datasource, add_metrics, set_metrics_flush_interval, instruction,
  set_shutdown_strategy, build,
}

pub record Args : Type 0 where
  pub http_rpc_url : Option String
  pub start_block : Option ℕ
  pub rpc_ws_url : Option String
  pub helius_api_key : Option String
  pub enable_account_monitoring : Bool
  pub health_port : ℕ

pub record Config : Type 0 where
  pub http_rpc_url : String
  pub start_block : ℕ
  pub helius_api_key : Option String
  pub rpc_ws_url : Option String
  pub health_port : ℕ

-- `o.or_else(|| …)` and `o.unwrap_or(…)`.
abbrev pub or_else : {A : Type 0} → Option A → Option A → Option A
or_else none other = other
or_else (some a) other = some a

-- `env::var(name).ok()`, and what `parse` makes of a text, are given.
unfoldable pub from_args :
    (env : String → Option String) → (parse : String → Option ℕ) → Args → Config
from_args env parse args = record {
  http_rpc_url =
      unwrap_or (or_else args.http_rpc_url (env "HTTP_RPC_URL"))
        "https://api.mainnet-beta.solana.com/";
  start_block =
      unwrap_or
        (or_else args.start_block (elim (env "START_BLOCK") [ none ↦ none | some s ↦ parse s ])) 0;
  helius_api_key = or_else args.helius_api_key (env "HELIUS_API_KEY");
  rpc_ws_url = elim args.enable_account_monitoring [
    | true ↦ some (
        unwrap_or args.rpc_ws_url
          (unwrap_or (env "RPC_WS_URL") "wss://api.mainnet-beta.solana.com/"))
    | false ↦ none
  ];
  health_port = args.health_port;
}

-- `Result<(), String>`
unfoldable pub validate : Config → String ⊎ Unit {0}
validate config = elim config.helius_api_key [
  | none ↦ inl "HELIUS_API_KEY is required for transaction monitoring"
  | some key ↦ inr tt
]

-- What `create_pipeline` calls: `create_helius_datasource` for a key, a new id, the logging of
-- metrics, the decoder, the processor, and what comes of creating the transaction crawler.
pub record Parts (S D M : Type 0) : Type 0 where
  pub create_helius_datasource : String → D
  pub create_transaction_crawler_datasource : (http_rpc_url : String) → Option ℕ → CarbonResult D
  pub unique : DatasourceId
  pub log_metrics : M
  pub decode_instruction : Instruction → Option (DecodedInstruction OmnipairInstruction)
  pub process :
      InstructionMetadata
        × DecodedInstruction OmnipairInstruction
        × NestedInstructions
        × Instruction
      → Action S (Unit {0})

module _ {S D M C : Type 0} (parts : Parts S D M) where
  -- The crawler is created and not used.
  unfoldable pub create_pipeline : Config → CarbonResult (Built S D M C)
  create_pipeline config = do
    api_key ← ok_or config.helius_api_key (custom "HELIUS_API_KEY is required for Atlas WS")
    crawler ←
        parts.create_transaction_crawler_datasource config.http_rpc_url (some config.start_block)
    build (
        set_shutdown_strategy process_pending (
          instruction parts.decode_instruction parts.process (
            set_metrics_flush_interval 3 (
              add_metrics parts.log_metrics
                (datasource parts.unique (parts.create_helius_datasource api_key) builder)))))

-- The branch of `select!` that is first: the pipeline's end, or a signal.
pub data Ending : Type 0 where
  finished : CarbonResult (Unit {0}) → Ending
  ctrl_c shutdown_signal : Ending

unfoldable pub run_pipeline : Ending → CarbonResult (Unit {0})
run_pipeline (finished result) = result
run_pipeline ctrl_c = ok tt
run_pipeline shutdown_signal = ok tt

-- `ending` is how a pipeline that was created comes to its end.
unfoldable pub run_indexer_instance :
    {S D M C : Type 0} → Parts S D M → Config → (Built S D M C → Ending) → CarbonResult (Unit {0})
unfolding create_pipeline run_pipeline
run_indexer_instance parts config ending =
    create_pipeline parts config >>= λ pipeline. run_pipeline (ending pipeline)
