-- ===== src/Connect/Queue/Batches.antt =====
-- What the queue's configuration guarantees.
use e_bpf_lens.Prelude.{Bool, true, false, ◌||◌, some, ◌≡◌, refl, arith, if◌then◌else◌}
use e_bpf_lens.Int64.{ℤ, pos, negsuc, leb_int}
use e_bpf_lens.Connect.Queue.{
  TracesConfig, BatchConfig, QueueConfig, is_positive, batch_config, get_queue_config,
}

-- The sizes of the batch are not negative and in order.
pub record IsOrdered (b : BatchConfig) : Type 0 where
  min_not_negative : leb_int (pos 0) b.min_size ≡ true
  in_order : leb_int b.min_size b.max_size ≡ true
  timeout_not_negative : leb_int (pos 0) b.flush_timeout ≡ true

positive_int : (z : ℤ) → leb_int (pos 0) (if is_positive z then z else pos 0) ≡ true
unfolding is_positive leb_int
positive_int (pos n) = ground arith
positive_int (negsuc n) = refl

min_int :
    (b : Bool) (z : ℤ) → leb_int (pos 0) z ≡ true → leb_int (pos 0) (if b then z else pos 0) ≡ true
unfolding leb_int
min_int true z h = h
min_int false z h = refl

order_int :
    (b : Bool) (z : ℤ)
    → leb_int (pos 0) z ≡ true
    → leb_int (if b then z else pos 0) (if is_positive z then z else pos 0) ≡ true
unfolding is_positive leb_int
order_int true (pos n) h = ground arith
order_int false (pos n) h = ground arith
order_int b (negsuc n) h = absurd (ground arith)

batch_config-IsOrdered :
    (cfg : TracesConfig) → leb_int (pos 0) cfg.batch_max_size ≡ true → IsOrdered (batch_config cfg)
unfolding batch_config
batch_config-IsOrdered cfg h = record {
  min_not_negative = min_int (is_positive cfg.batch_timeout) cfg.batch_max_size h;
  in_order = order_int (is_positive cfg.batch_timeout) cfg.batch_max_size h;
  timeout_not_negative = positive_int cfg.batch_timeout;
}

-- Where one of the two settings of the batch is positive, a queue is configured that blocks on
-- overflow, and it has a batch whose minimum is neither negative nor above its maximum, whatever the
-- library's defaults are. The maximum that is set is not negative.
get_queue_config-IsOrdered :
    (default : QueueConfig) (cfg : TracesConfig)
    → leb_int (pos 0) cfg.batch_max_size ≡ true
    → (is_positive cfg.batch_max_size || is_positive cfg.batch_timeout) ≡ true
    → (q : QueueConfig) × (b : BatchConfig) × (get_queue_config default cfg ≡ some q)
      × (q.block_on_overflow ≡ true)
      × (q.batch ≡ some b)
      × IsOrdered b
unfolding get_queue_config
get_queue_config-IsOrdered default cfg h set = (
  record {
    counts_items = true;
    block_on_overflow = true;
    queue_size = if is_positive cfg.queue_size then cfg.queue_size else default.queue_size;
    batch = some (batch_config cfg);
  },
  batch_config cfg,
  ground arith,
  refl,
  refl,
  batch_config-IsOrdered cfg h,
)
