-- ===== src/Pipeline/Builder/Chain.antt =====
-- A chain of calls on the PipelineBuilder of indexer/crates/core/src/pipeline.rs, and the channel of
-- what it builds.
use omnipair_indexer.Base.{
  ℕ, Option, none, some, List, [], ◌∷◌, ◌≡◌, ◌∙◌, refl, ap, CarbonResult, panic, ◌>>=◌,
}
use omnipair_indexer.Pipeline.Builder.{
  PipelineBuilder, builder, new, build, open_channel, datasource_with_id, datasource,
  set_shutdown_strategy, account, account_with_filters, account_deletions,
  account_deletions_with_filters, block_details, block_details_with_filters, instruction,
  instruction_with_filters, transaction, transaction_with_filters, add_metrics,
  set_metrics_flush_interval, set_datasource_cancellation_token, set_channel_buffer_size,
}
use omnipair_indexer.Pipeline.Builder.Calls.{
  Call, apply, applied, channel_buffer_size_of, call_set_channel_buffer_size,
}

module _ {S D M C : Type 0} where
  -- What the last of the calls that sets a value sets it to; `v` if none does.
  unfoldable pub settled : {V : Type 0} → (Call S D M C → Option V) → V → List (Call S D M C) → V
  settled f v [] = v
  settled f v (c ∷ cs) = settled f (elim (f c) [ none ↦ v | some w ↦ w ]) cs

  applied-settled :
      {V : Type 0} (field : PipelineBuilder S D M C → V) (f : Call S D M C → Option V)
      → ((c : Call S D M C) (b : PipelineBuilder S D M C)
          → field (apply c b) ≡ elim (f c) [ none ↦ field b | some w ↦ w ])
      → (cs : List (Call S D M C)) (b : PipelineBuilder S D M C)
      → field (applied cs b) ≡ settled f (field b) cs
  unfolding applied settled
  applied-settled field f step [] b = refl
  applied-settled field f step (c ∷ cs) b =
      applied-settled field f step cs (apply c b) ∙ ap (λ v. settled f v cs) (step c b)

  channel_buffer_size-step :
      (c : Call S D M C) (b : PipelineBuilder S D M C)
      → (apply c b).channel_buffer_size
        ≡ elim (channel_buffer_size_of c) [ none ↦ b.channel_buffer_size | some w ↦ w ]
  unfolding apply channel_buffer_size_of datasource_with_id datasource set_shutdown_strategy account
      account_with_filters account_deletions account_deletions_with_filters block_details
      block_details_with_filters instruction instruction_with_filters transaction
      transaction_with_filters add_metrics set_metrics_flush_interval
      set_datasource_cancellation_token set_channel_buffer_size
  channel_buffer_size-step (call_set_channel_buffer_size size) b = refl
  channel_buffer_size-step _ b = refl

  -- A pipeline built from `PipelineBuilder::new()` without a size for its channel panics when it makes
  -- the channel, if a channel of size 0 does; one built from `Pipeline::builder()` by the same calls
  -- makes a channel of 1000.
  pub build-unsized :
      (bounded : ℕ → CarbonResult (Unit {0})) (cs : List (Call S D M C))
      → bounded 0 ≡ panic
      → ((size : ℕ) → settled channel_buffer_size_of size cs ≡ size)
      → ((build (applied cs new) >>= open_channel bounded) ≡ panic)
        × ((build (applied cs builder) >>= open_channel bounded) ≡ bounded 1000)
  unfolding build open_channel new builder
  build-unsized bounded cs zero_panics kept = (
    ap bounded (
          applied-settled (λ b. b.channel_buffer_size) channel_buffer_size_of
            channel_buffer_size-step cs new
          ∙ kept 0)
        ∙ zero_panics,
    ap bounded (
        applied-settled (λ b. b.channel_buffer_size) channel_buffer_size_of channel_buffer_size-step
          cs builder
        ∙ kept 1000),
  )
