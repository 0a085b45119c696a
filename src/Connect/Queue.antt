-- ===== src/Connect/Queue.antt =====
-- `getQueueConfig` and `getRetrySettings` of pkg/export/otel/connect_spans.go. The defaults are those
-- of the OpenTelemetry collector's library; sizes and times are numbers.
pub mod Batches
use e_bpf_lens.Prelude.{Bool, true, false, not, ◌&&◌, ◌||◌, Option, none, some, if◌then◌else◌}
use e_bpf_lens.Int64.{ℤ, pos, leb_int}

-- What the two functions read of `otelcfg.TracesConfig`.
pub record TracesConfig : Type 0 where
  pub batch_max_size : ℤ
  pub batch_timeout : ℤ
  pub queue_size : ℤ
  pub back_off_initial_interval : ℤ
  pub back_off_max_interval : ℤ
  pub back_off_max_elapsed_time : ℤ

-- `exporterhelper.BatchConfig` and `QueueBatchConfig`; `counts_items` says that the sizer is that of
-- items.
pub record BatchConfig : Type 0 where
  pub counts_items : Bool
  pub flush_timeout : ℤ
  pub min_size : ℤ
  pub max_size : ℤ

pub record QueueConfig : Type 0 where
  pub counts_items : Bool
  pub block_on_overflow : Bool
  pub queue_size : ℤ
  pub batch : Option BatchConfig

-- `configretry.BackOffConfig`
pub record BackOffConfig : Type 0 where
  initial_interval : ℤ
  max_interval : ℤ
  max_elapsed_time : ℤ

-- `z > 0`
pub is_positive : ℤ → Bool
unfolding leb_int
is_positive z = not (leb_int z (pos 0))

pub batch_config : TracesConfig → BatchConfig
unfolding is_positive
batch_config cfg = record {
  counts_items = true;
  max_size = if is_positive cfg.batch_max_size then cfg.batch_max_size else pos 0;
  flush_timeout = if is_positive cfg.batch_timeout then cfg.batch_timeout else pos 0;
  min_size = if is_positive cfg.batch_timeout then cfg.batch_max_size else pos 0;
}

-- `none` is `configoptional.None`.
pub get_queue_config : QueueConfig → TracesConfig → Option QueueConfig
unfolding batch_config
get_queue_config default cfg =
    if not (is_positive cfg.batch_max_size)
      && not (is_positive cfg.batch_timeout)
      && not (is_positive cfg.queue_size)
    then none
    else some (record {
      counts_items = true;
      block_on_overflow = true;
      queue_size = if is_positive cfg.queue_size then cfg.queue_size else default.queue_size;
      batch =
          if is_positive cfg.batch_max_size || is_positive cfg.batch_timeout
          then some (batch_config cfg)
          else default.batch;
    })

unfoldable get_retry_settings : BackOffConfig → TracesConfig → BackOffConfig
unfolding is_positive
get_retry_settings default cfg = record {
  initial_interval =
      if is_positive cfg.back_off_initial_interval
      then cfg.back_off_initial_interval
      else default.initial_interval;
  max_interval =
      if is_positive cfg.back_off_max_interval
      then cfg.back_off_max_interval
      else default.max_interval;
  max_elapsed_time =
      if is_positive cfg.back_off_max_elapsed_time
      then cfg.back_off_max_elapsed_time
      else default.max_elapsed_time;
}
