-- ===== src/Service/Instance.antt =====
-- `create_pipeline` of indexer/src/pipeline.rs and the start block of its configuration.
use omnipair_indexer.Base.{ℕ, some, Option, ◌≡◌, String, ok, refl}
use omnipair_indexer.Service.{Args, Parts, from_args, create_pipeline}

module _ {S D M C : Type 0} (parts : Parts S D M) where
  -- If the crawler can be created whatever the start block, the start block makes no difference:
  -- with any other on the command line, the same pipeline or the same error comes of it.
  pub create_pipeline-start_block :
      (env : String → Option String) (parse : String → Option ℕ) (args : Args) (other : Option ℕ)
      → ((url : String) (block : Option ℕ)
          → (d : D) × (parts.create_transaction_crawler_datasource url block ≡ ok d))
      → create_pipeline {C = C} parts (from_args env parse args)
        ≡ create_pipeline {C = C} parts (from_args env parse (record args { start_block = other }))
  unfolding create_pipeline from_args
  create_pipeline-start_block env parse args other created =
      let config = from_args env parse args in
      let config' = from_args env parse (record args { start_block = other }) in
      let (d, e) = created config.http_rpc_url (some config.start_block) in
      let (d', e') = created config'.http_rpc_url (some config'.start_block) in
      rw (create_pipeline, e, e') refl
