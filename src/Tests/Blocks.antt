-- ===== src/Tests/Blocks.antt =====
-- Runs of the connections of blocks: a producer, 0, and two consumers.
use dumphfdl.Common.{
  ℕ, ◌+◌, ◌*◌, ◌≤◌, ◌≡◌, refl, true, false, Option, none, some, List, [], ◌∷◌, ◌++◌, get_elem?,
  arith,
}
use dumphfdl.Block.{
  producer_none, producer_multi, consumer_none, consumer_multi, Block, shared_buffer, Connection,
  Memory, block_connect_one2many, block_disconnect_one2many,
}
use dumphfdl.Block.Connecting.{disconnect-dangling}
use dumphfdl.Block.Sizes.{AreIn, AreServed, connect_one2many_lem}

abbrev consumer : ℕ → Option ℕ → Block
consumer min_ru source = record {
  consumer = record { source = source; min_ru = min_ru; type_of = consumer_multi };
  producer = record { out = none; max_tu = 0; type_of = producer_none };
  has_thread_routine = true;
  running = false;
}

abbrev producer : Option ℕ → Block
producer out = record {
  consumer = record { source = none; min_ru = 0; type_of = consumer_none };
  producer = record { out = out; max_tu = 100; type_of = producer_multi };
  has_thread_routine = true;
  running = false;
}

abbrev apart : Memory
apart = record {
  blocks = producer none ∷ consumer 50 none ∷ consumer 700 none ∷ [];
  connections = [];
}

abbrev sinks : List ℕ
sinks = 1 ∷ 2 ∷ []

connect_one2many_lem_example :
    (m' : Memory) × (mru : ℕ) × (size : ℕ) × (block_connect_one2many apart 0 sinks true
      ≡ some (m', 2))
    × (m'.connections
        ≡ [] ++ some (record { buffer = shared_buffer size (2 + 1); is_shutdown = false }) ∷ [])
    × (8 * 100 ≤ size)
    × (2 * mru ≤ size)
    × AreServed apart sinks mru
    × AreIn 0 m' sinks
    × ((s' : Block) × (get_elem? m'.blocks 0 ≡ some s') × (s'.producer.out ≡ some 0))
connect_one2many_lem_example =
    connect_one2many_lem apart 0 sinks (producer none) refl refl (omega arith)
      ((consumer 50 none, refl, refl), ((consumer 700 none, refl, refl), _))

abbrev connection : Connection
connection = record { buffer = shared_buffer 1400 3; is_shutdown = true }

abbrev together : Memory
together = record {
  blocks = producer (some 0) ∷ consumer 50 (some 0) ∷ consumer 700 (some 0) ∷ [];
  connections = some connection ∷ [];
}

disconnect-dangling_example :
    (m' : Memory) × (block_disconnect_one2many together 0 sinks ≡ some m')
    × (get_elem? m'.connections 0 ≡ some none)
    × ((s' : Block) × (get_elem? m'.blocks 0 ≡ some s') × (s'.producer.out ≡ some 0))
    × (block_disconnect_one2many m' 0 [] ≡ none)
disconnect-dangling_example =
    disconnect-dangling together 0 0 sinks [] (producer (some 0)) connection refl refl refl refl
      (omega arith, (omega arith, _))
