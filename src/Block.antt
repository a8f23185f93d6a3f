-- ===== src/Block.antt =====
-- src/block.c: the connections between the blocks that process samples. A pointer to a block or to a
-- connection is an index. `none` is a failed ASSERT or a use of memory that is not there. Whether
-- the pthread_* functions succeed is an argument.
pub mod Connecting
pub mod Sizes
use dumphfdl.Common.{
  ℕ, zero, suc, ◌+◌, ◌*◌, max, Bool, true, false, ◌&&◌, ◌||◌, not, Option, none, some, ◌>>=◌, List,
  [], ◌∷◌, ◌++◌, length, get_elem?, set, ◌==◌, ltb, if◌then◌else◌,
}

pub data ProducerType : Type 0 where
  producer_none producer_single producer_multi : ProducerType

pub data ConsumerType : Type 0 where
  consumer_none consumer_single consumer_multi : ConsumerType

-- struct producer
pub record Producer : Type 0 where
  pub out : Option ℕ
  pub max_tu : ℕ
  pub type_of : ProducerType

-- struct consumer
pub record Consumer : Type 0 where
  pub source : Option ℕ
  pub min_ru : ℕ
  pub type_of : ConsumerType

-- struct block
pub record Block : Type 0 where
  pub consumer : Consumer
  pub producer : Producer
  pub has_thread_routine : Bool
  pub running : Bool

-- The union of struct block_connection: the size of a circular buffer, or that of a shared one and
-- the number of threads at each of its barriers.
pub data Buffer : Type 0 where
  circ_buffer : ℕ → Buffer
  shared_buffer : ℕ → ℕ → Buffer

-- struct block_connection; the only flag is the shutdown.
pub record Connection : Type 0 where
  pub buffer : Buffer
  pub is_shutdown : Bool

-- The blocks, and every connection that was allocated; a freed one is `none`.
pub record Memory : Type 0 where
  pub blocks : List Block
  pub connections : List (Option Connection)

abbrev pub buf_size_prod_mtu_multiplier : ℕ
buf_size_prod_mtu_multiplier = 8

abbrev pub buf_size_cons_mru_multiplier : ℕ
buf_size_cons_mru_multiplier = 2

unfoldable pub buf_size : ℕ → ℕ → ℕ
buf_size max_tu min_ru =
    max (buf_size_prod_mtu_multiplier * max_tu) (buf_size_cons_mru_multiplier * min_ru)

abbrev pub is_producer_single : ProducerType → Bool
is_producer_single producer_single = true
is_producer_single other = false

abbrev pub is_producer_multi : ProducerType → Bool
is_producer_multi producer_multi = true
is_producer_multi other = false

abbrev pub is_consumer_single : ConsumerType → Bool
is_consumer_single consumer_single = true
is_consumer_single other = false

abbrev pub is_consumer_multi : ConsumerType → Bool
is_consumer_multi consumer_multi = true
is_consumer_multi other = false

-- ASSERT
abbrev pub assert : Bool → Option (Unit {0})
assert true = some _
assert false = none

abbrev pub set_out : Memory → ℕ → Block → Option ℕ → Memory
set_out m i b p = record m {
  blocks = set m.blocks i (record b { producer = record b.producer { out = p } });
}

abbrev pub set_in : Memory → ℕ → Block → Option ℕ → Memory
set_in m i b p = record m {
  blocks = set m.blocks i (record b { consumer = record b.consumer { source = p } });
}

-- NEW, behind the index that it gives.
abbrev pub allocated : Memory → Buffer → Memory
allocated m buffer = record m {
  connections = m.connections ++ some (record { buffer = buffer; is_shutdown = false }) ∷ [];
}

-- XFREE: nothing for a null pointer; a fault for one that is freed.
unfoldable pub freed : Memory → Option ℕ → Option Memory
freed m none = some m
freed m (some p) = get_elem? m.connections p >>= λ (c : Option Connection). elim c [
  | none ↦ none
  | some live ↦ some (record m { connections = set m.connections p none })
]

abbrev pub is_same_pointer : Option ℕ → Option ℕ → Bool
is_same_pointer none none = true
is_same_pointer (some a) (some b) = a == b
is_same_pointer a b = false

unfoldable pub block_connect_one2one : Memory → ℕ → ℕ → Bool → Option (Memory × ℕ)
unfolding buf_size
block_connect_one2one m source sink initialized = do
  s ← get_elem? m.blocks source
  k ← get_elem? m.blocks sink
  _ ← assert (is_producer_single s.producer.type_of)
  _ ← assert (is_consumer_single k.consumer.type_of)
  _ ← assert (not (s.producer.max_tu == 0))
  let p = length m.connections
  let m1 = allocated m (circ_buffer (buf_size s.producer.max_tu k.consumer.min_ru))
  if initialized
      then (do
        let m2 = set_out m1 source s (some p)
        k' ← get_elem? m2.blocks sink
        some (set_in m2 sink k' (some p), 1))
      else some (m1, 0)

unfoldable pub block_disconnect_one2one : Memory → ℕ → ℕ → Option Memory
unfolding freed
block_disconnect_one2one m source sink = do
  s ← get_elem? m.blocks source
  k ← get_elem? m.blocks sink
  _ ← assert (is_producer_single s.producer.type_of)
  _ ← assert (is_consumer_single k.consumer.type_of)
  if is_same_pointer s.producer.out k.consumer.source
      then (do
        m1 ← freed m s.producer.out
        let m2 = set_out m1 source s none
        k' ← get_elem? m2.blocks sink
        some (set_in m2 sink k' none))
      else some m

-- The loop over the sinks: the greatest min_ru.
unfoldable pub max_consumer_mru : Memory → List ℕ → ℕ → Option ℕ
max_consumer_mru m [] mru = some mru
max_consumer_mru m (i ∷ sinks) mru = do
  k ← get_elem? m.blocks i
  _ ← assert (is_consumer_multi k.consumer.type_of)
  max_consumer_mru m sinks (max mru k.consumer.min_ru)

-- The loop that connects the sinks and counts them.
unfoldable pub connect_sinks : Memory → List ℕ → ℕ → ℕ → Option (Memory × ℕ)
connect_sinks m [] p ret = some (m, ret)
connect_sinks m (i ∷ sinks) p ret =
    get_elem? m.blocks i >>= λ (k : Block). connect_sinks (set_in m i k (some p)) sinks p (ret + 1)

unfoldable pub block_connect_one2many : Memory → ℕ → List ℕ → Bool → Option (Memory × ℕ)
unfolding buf_size max_consumer_mru connect_sinks
block_connect_one2many m source sinks initialized = do
  s ← get_elem? m.blocks source
  _ ← assert (is_producer_multi s.producer.type_of)
  _ ← assert (not (s.producer.max_tu == 0))
  mru ← max_consumer_mru m sinks 0
  let p = length m.connections
  let m1 = allocated m (shared_buffer (buf_size s.producer.max_tu mru) (length sinks + 1))
  if initialized then connect_sinks (set_out m1 source s (some p)) sinks p 0 else some (m1, 0)

-- The loop that disconnects the sinks of the connection.
unfoldable pub disconnect_sinks : Memory → List ℕ → Option ℕ → Option Memory
disconnect_sinks m [] p = some m
disconnect_sinks m (i ∷ sinks) p = get_elem? m.blocks i >>= λ (k : Block).
    disconnect_sinks (if is_same_pointer k.consumer.source p then set_in m i k none else m) sinks p

unfoldable pub block_disconnect_one2many : Memory → ℕ → List ℕ → Option Memory
unfolding disconnect_sinks freed
block_disconnect_one2many m source sinks = do
  s ← get_elem? m.blocks source
  _ ← assert (is_producer_multi s.producer.type_of)
  m1 ← disconnect_sinks m sinks s.producer.out
  freed m1 s.producer.out

-- What both shutdown functions do to the connection; waking the consumers is not modelled.
unfoldable pub block_connection_shutdown : Memory → ℕ → Option Memory
block_connection_shutdown m p = get_elem? m.connections p >>= λ (c : Option Connection). elim c [
  | none ↦ none
  | some live ↦
      some
        (record m { connections = set m.connections p (some (record live { is_shutdown = true })) })
]

unfoldable pub block_connection_is_shutdown_signaled : Memory → ℕ → Option Bool
block_connection_is_shutdown_signaled m p = get_elem? m.connections p >>= λ (c : Option Connection).
    elim c [ none ↦ none | some live ↦ some live.is_shutdown ]

unfoldable pub block_start : Memory → ℕ → Bool → Option (Memory × ℕ)
block_start m i started = do
  b ← get_elem? m.blocks i
  _ ← assert b.has_thread_routine
  some (
      if started
      then (record m { blocks = set m.blocks i (record b { running = true }) }, 1)
      else (m, 0))

-- Each block comes with whether its thread could be started.
unfoldable pub block_set_start : Memory → List (ℕ × Bool) → Option (Memory × ℕ)
unfolding block_start
block_set_start m [] = some (m, 0)
block_set_start m ((i, started) ∷ rest) = do
  (m1, n) ← block_start m i started
  (m2, total) ← block_set_start m1 rest
  some (m2, n + total)

unfoldable pub block_is_running : Memory → ℕ → Option Bool
block_is_running m i = get_elem? m.blocks i >>= λ (b : Block). some b.running

unfoldable pub block_set_is_any_running : Memory → List ℕ → Option Bool
unfolding block_is_running
block_set_is_any_running m [] = some false
block_set_is_any_running m (i ∷ rest) = block_is_running m i >>= λ b.
    let others = block_set_is_any_running m rest in if b then some true else others
