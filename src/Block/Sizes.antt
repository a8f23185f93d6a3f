-- ===== src/Block/Sizes.antt =====
-- What block_connect_one2many of src/block.c builds.
use dumphfdl.Common.{
  ℕ, suc, ◌+◌, ◌*◌, ◌≤◌, ◌<◌, max, ◌≡◌, refl, ap, sym, ◌∙◌, true, false, some, List, [], ◌∷◌, ◌++◌,
  length, length-set, get_elem?, get_elem?-set_self, get_elem?-set_ne, ◌==◌, ==_iff, Bool-cases,
  Option-cases, inl, inr, arith, zero_plus,
}
use dumphfdl.Block.{
  Block, shared_buffer, Memory, buf_size, is_producer_multi, is_consumer_multi, set_out, set_in,
  allocated, max_consumer_mru, connect_sinks, block_connect_one2many,
}
use dumphfdl.Block.Connecting.{
  get_elem?-some, get_elem?-none, AreBlocks, Kept, set_in-Kept, producer_of, producer_of-some,
}

-- The block at an index consumes from a connection.
abbrev pub IsIn : ℕ → Memory → ℕ → Type 0
IsIn p m i = (k : Block) × (get_elem? m.blocks i ≡ some k) × (k.consumer.source ≡ some p)

abbrev pub AreIn : ℕ → Memory → List ℕ → Type 0
AreIn p m [] = Unit
AreIn p m (i ∷ is) = IsIn p m i × AreIn p m is

set_in-here :
    (p : ℕ) (m : Memory) (i j : ℕ) (k : Block)
    → get_elem? m.blocks j ≡ some k
    → j ≡ i
    → IsIn p (set_in m j k (some p)) i
set_in-here p m i j k at e = (
  record k { consumer = record k.consumer { source = some p } },
  ap (get_elem? (set_in m j k (some p)).blocks) (sym e)
      ∙ get_elem?-set_self m.blocks j _ (get_elem?-some m.blocks j k at),
  refl,
)

set_in-IsIn :
    (p : ℕ) (m : Memory) (i j : ℕ) (k : Block)
    → get_elem? m.blocks j ≡ some k
    → IsIn p m i
    → IsIn p (set_in m j k (some p)) i
set_in-IsIn p m i j k at (b, e, is) = elim (Bool-cases (j == i)) [
  | inl same ↦ set_in-here p m i j k at ((==_iff _ _).0 same)
  | inr other ↦
      (b, get_elem?-set_ne m.blocks j i _ (λ e'. ground (arith, other, (==_iff j i).1 e')) ∙ e, is)
]

-- What the loop over the sinks leaves of a memory.
record Connects (p : ℕ) (m : Memory) (sinks : List ℕ) (m' : Memory) : Type 0 where
  kept : Kept m m'
  still_in : (i : ℕ) → IsIn p m i → IsIn p m' i
  all_in : AreIn p m' sinks

connect_sinks_lem :
    (m : Memory) (sinks : List ℕ) (p ret : ℕ)
    → AreBlocks (length m.blocks) sinks
    → (m' : Memory) × (connect_sinks m sinks p ret ≡ some (m', ret + length sinks))
      × Connects p m sinks m'
unfolding connect_sinks
connect_sinks_lem m [] p ret h = (
  m,
  let e : ret ≡ ret + 0 = omega arith in ap (λ (n : ℕ). some (m, n)) e,
  record { kept = ((λ i. refl), refl); still_in = λ i x. x; all_in = _ },
)
connect_sinks_lem m (i ∷ sinks) p ret (lt, rest) = elim (Option-cases (get_elem? m.blocks i)) [
  | inl e ↦ absurd (get_elem?-none m.blocks i lt e)
  | inr (k, e) ↦
      let m1 = set_in m i k (some p) in
      let (m', done, c) = connect_sinks_lem m1 sinks p (ret + 1) (
        rw
          (sym
            (length-set m.blocks i (record k { consumer = record k.consumer { source = some p } })))
          at rest) in
      let first = set_in-Kept m m i k (some p) e ((λ x. refl), refl) in
      let count : ret + 1 + length sinks ≡ ret + suc (length sinks) = omega arith in
      (
        m',
        rw e (done ∙ ap (λ (n : ℕ). some (m', n)) count),
        record {
          kept = ((λ x. c.kept.0 x ∙ first.0 x), c.kept.1 ∙ first.1);
          still_in = λ j x. c.still_in j (set_in-IsIn p m j i k e x);
          all_in = (c.still_in i (set_in-here p m i i k e refl), c.all_in);
        },
      )
]

-- Consumers of a shared buffer, and a buffer of twice what each of them takes at least.
abbrev pub AreConsumers : Memory → List ℕ → Type 0
AreConsumers m [] = Unit
AreConsumers m (i ∷ is) =
    ((k : Block) × (get_elem? m.blocks i ≡ some k) × (is_consumer_multi k.consumer.type_of ≡ true))
    × AreConsumers m is

abbrev pub AreServed : Memory → List ℕ → ℕ → Type 0
AreServed m [] mru = Unit
AreServed m (i ∷ is) mru =
    ((k : Block) × (get_elem? m.blocks i ≡ some k) × (k.consumer.min_ru ≤ mru)) × AreServed m is mru

AreConsumers-AreBlocks :
    (m : Memory) (sinks : List ℕ) → AreConsumers m sinks → AreBlocks (length m.blocks) sinks
AreConsumers-AreBlocks m [] h = _
AreConsumers-AreBlocks m (i ∷ is) ((k, e, t), rest) =
    (get_elem?-some m.blocks i k e, AreConsumers-AreBlocks m is rest)

max_consumer_mru_lem :
    (m : Memory) (sinks : List ℕ) (mru : ℕ)
    → AreConsumers m sinks
    → (r : ℕ) × (max_consumer_mru m sinks mru ≡ some r) × (mru ≤ r) × AreServed m sinks r
unfolding max_consumer_mru
max_consumer_mru_lem m [] mru h = (mru, refl, omega arith, _)
max_consumer_mru_lem m (i ∷ is) mru ((k, e, t), rest) =
    let (r, e', le, served) = max_consumer_mru_lem m is (max mru k.consumer.min_ru) rest in
    (r, rw (e, t) e', omega (arith, le), ((k, e, omega (arith, le)), served))

-- Connecting a producer to any number of consumers allocates one connection, to which the producer
-- and every consumer then point, and reports the number of consumers. Its buffer holds eight
-- transmissions of the producer and twice what each consumer receives at least, and its barriers
-- count the consumers and the producer. No connection that was there before changes.
pub connect_one2many_lem :
    (m : Memory) (source : ℕ) (sinks : List ℕ) (s : Block)
    → get_elem? m.blocks source ≡ some s
    → is_producer_multi s.producer.type_of ≡ true
    → 0 < s.producer.max_tu
    → AreConsumers m sinks
    → (m' : Memory) × (mru : ℕ) × (size : ℕ) × (block_connect_one2many m source sinks true
        ≡ some (m', length sinks))
      × (m'.connections
          ≡ m.connections
            ++ some (record { buffer = shared_buffer size (length sinks + 1); is_shutdown = false })
              ∷ [])
      × (8 * s.producer.max_tu ≤ size)
      × (2 * mru ≤ size)
      × AreServed m sinks mru
      × AreIn (length m.connections) m' sinks
      × ((s' : Block) × (get_elem? m'.blocks source ≡ some s')
          × (s'.producer.out ≡ some (length m.connections)))
unfolding block_connect_one2many buf_size
connect_one2many_lem m source sinks s at multi some_tu consumers =
    let (mru, e, le, served) = max_consumer_mru_lem m sinks 0 consumers in
    let tu : (s.producer.max_tu == 0) ≡ false = ground (arith, some_tu) in
    let p = length m.connections in
    let m1 =
      set_out (allocated m (shared_buffer (buf_size s.producer.max_tu mru) (length sinks + 1)))
        source s (some p) in
    let inside =
      rw
        (sym
          (length-set m.blocks source (record s { producer = record s.producer { out = some p } })))
        at (AreConsumers-AreBlocks m sinks consumers) in
    let (m', done, c) = connect_sinks_lem m1 sinks p 0 inside in
    let here =
      get_elem?-set_self m.blocks source
        (record s { producer = record s.producer { out = some p } })
        (get_elem?-some m.blocks source s at) in
    let (s', at', same) = producer_of-some _ _ (c.kept.0 source ∙ ap producer_of here) in
    (
      m',
      mru,
      buf_size s.producer.max_tu mru,
      rw (at, multi, tu, e) (done ∙ ap (λ (n : ℕ). some (m', n)) (zero_plus (length sinks))),
      c.kept.1,
      omega arith,
      omega arith,
      served,
      c.all_in,
      (s', at', ap (λ q. q.out) same),
    )
