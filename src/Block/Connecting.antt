-- ===== src/Block/Connecting.antt =====
-- What the connections of src/block.c are after they are made and taken apart.
use dumphfdl.Common.{
  ℕ, zero, suc, ◌<◌, ◌≡◌, ◌≢◌, refl, ap, sym, ◌∙◌, true, Option, none, some, List, [], ◌∷◌, length,
  get_elem?, set, get_elem?-set_self, get_elem?-set_ne, ◌==◌, ==_iff, if◌then◌else◌, Bool-cases,
  Option-cases, inl, inr, arith, Ensures, Ensures-at, Safe, length-set,
}
use dumphfdl.Block.{
  Block, Connection, Memory, Producer, is_producer_multi, set_in, freed, is_same_pointer,
  disconnect_sinks, block_disconnect_one2many,
}

-- An element that can be read stands within the list.
pub get_elem?-some :
    {A : Type 0} (xs : List A) (i : ℕ) (a : A) → get_elem? xs i ≡ some a → i < length xs
get_elem?-some [] i a e = absurd (ground (arith, e))
get_elem?-some (x ∷ xs) zero a e = omega arith
get_elem?-some (x ∷ xs) (suc i) a e = omega (arith, get_elem?-some xs i a e)

pub get_elem?-none : {A : Type 0} (xs : List A) (i : ℕ) → i < length xs → get_elem? xs i ≢ none
get_elem?-none [] i h e = elim h [ ]
get_elem?-none (x ∷ xs) zero h e = ground (arith, e)
get_elem?-none (x ∷ xs) (suc i) h e = get_elem?-none xs i (omega (arith, h)) e

abbrev pub producer_of : Option Block → Option Producer
producer_of none = none
producer_of (some b) = some b.producer

-- Only consumers differ.
abbrev pub Kept : Memory → Memory → Type 0
Kept m0 m =
    ((i : ℕ) → producer_of (get_elem? m.blocks i) ≡ producer_of (get_elem? m0.blocks i))
    × (m.connections ≡ m0.connections)

pub set_in-Kept :
    (m0 m : Memory) (j : ℕ) (k : Block) (p : Option ℕ)
    → get_elem? m.blocks j ≡ some k
    → Kept m0 m
    → Kept m0 (set_in m j k p)
set_in-Kept m0 m j k p at (same, conns) = (
  (λ i. elim (Bool-cases (j == i)) [
    | inl is ↦
        let e : j ≡ i = (==_iff _ _).0 is in
        ap producer_of (
          ap (get_elem? (set_in m j k p).blocks) (sym e)
          ∙ get_elem?-set_self m.blocks j _ (get_elem?-some m.blocks j k at))
        ∙ sym (ap producer_of at)
        ∙ ap (λ x. producer_of (get_elem? m.blocks x)) e
        ∙ same i
    | inr other ↦
        ap producer_of
          (get_elem?-set_ne m.blocks j i _ (λ e'. ground (arith, other, (==_iff j i).1 e')))
        ∙ same i
  ]),
  conns,
)

disconnect_sinks-Kept :
    (m0 m : Memory) (sinks : List ℕ) (p : Option ℕ)
    → Kept m0 m
    → Ensures (Kept m0) (disconnect_sinks m sinks p)
unfolding disconnect_sinks
disconnect_sinks-Kept m0 m [] p kept = kept
disconnect_sinks-Kept m0 m (i ∷ sinks) p kept = elim (Option-cases (get_elem? m.blocks i)) [
  | inl e ↦ rw e _
  | inr (k, e) ↦ rw e (
      disconnect_sinks-Kept m0
        (if is_same_pointer k.consumer.source p then set_in m i k none else m) sinks p
        (elim (Bool-cases (is_same_pointer k.consumer.source p)) [
          | inl is ↦ rw is (set_in-Kept m0 m i k none e kept)
          | inr other ↦ rw other kept
        ]))
]

-- The connection at an index was freed.
abbrev IsFreed : Memory → ℕ → Type 0
IsFreed m p = get_elem? m.connections p ≡ some none

freed_lem :
    (m : Memory) (p : ℕ) → Ensures (λ m'. IsFreed m' p × (m'.blocks ≡ m.blocks)) (freed m (some p))
unfolding freed
freed_lem m p = elim (Option-cases (get_elem? m.connections p)) [
  | inl e ↦ rw e _
  | inr (none, e) ↦ rw e _
  | inr (some live, e) ↦
      rw e (get_elem?-set_self m.connections p none (get_elem?-some _ p _ e), refl)
]

freed-again : (m : Memory) (p : ℕ) → IsFreed m p → freed m (some p) ≡ none
unfolding freed
freed-again m p e = rw e refl

-- The indices of blocks.
abbrev pub AreBlocks : ℕ → List ℕ → Type 0
AreBlocks n [] = Unit
AreBlocks n (i ∷ is) = (i < n) × AreBlocks n is

disconnect_sinks-Safe :
    (m : Memory) (sinks : List ℕ) (p : Option ℕ)
    → AreBlocks (length m.blocks) sinks
    → Safe (disconnect_sinks m sinks p)
unfolding disconnect_sinks
disconnect_sinks-Safe m [] p h = (m, refl)
disconnect_sinks-Safe m (i ∷ sinks) p (lt, rest) = elim (Option-cases (get_elem? m.blocks i)) [
  | inl e ↦ absurd (get_elem?-none m.blocks i lt e)
  | inr (k, e) ↦ rw e (elim (Bool-cases (is_same_pointer k.consumer.source p)) [
    | inl is ↦ rw is (
        disconnect_sinks-Safe (set_in m i k none) sinks p (
          rw
            (sym
              (length-set m.blocks i (record k { consumer = record k.consumer { source = none } })))
            at rest))
    | inr other ↦ rw other (disconnect_sinks-Safe m sinks p rest)
  ])
]

pub producer_of-some :
    (o : Option Block) (q : Producer)
    → producer_of o ≡ some q
    → (b : Block) × (o ≡ some b) × (b.producer ≡ q)
producer_of-some none q e = absurd (ground (arith, e))
producer_of-some (some b) q e = (b, refl, ground (arith, e))

disconnect-freed :
    (m : Memory) (source p : ℕ) (sinks : List ℕ) (s : Block)
    → get_elem? m.blocks source ≡ some s
    → is_producer_multi s.producer.type_of ≡ true
    → s.producer.out ≡ some p
    → IsFreed m p
    → block_disconnect_one2many m source sinks ≡ none
unfolding block_disconnect_one2many
disconnect-freed m source p sinks s at multi out gone =
    elim (Option-cases (disconnect_sinks m sinks (some p))) [
      | inl e ↦ rw (at, multi, out, e) refl
      | inr (m1, e) ↦
          let kept =
            Ensures-at (Kept m) _ m1 (disconnect_sinks-Kept m m sinks (some p) ((λ i. refl), refl))
              e in
          rw (at, multi, out, e)
            (freed-again m1 p
              (ap (λ (cs : List (Option Connection)). get_elem? cs p) kept.1 ∙ gone))
    ]

freed-live :
    (m : Memory) (p : ℕ) (c : Connection)
    → get_elem? m.connections p ≡ some (some c)
    → freed m (some p) ≡ some (record m { connections = set m.connections p none })
unfolding freed
freed-live m p c e = rw e refl

-- Disconnecting a producer from its consumers, all of them blocks, frees the connection, but leaves
-- the producer's pointer to it: the next disconnection of the producer uses the freed connection.
pub disconnect-dangling :
    (m : Memory) (source p : ℕ) (sinks sinks' : List ℕ) (s : Block) (c : Connection)
    → get_elem? m.blocks source ≡ some s
    → is_producer_multi s.producer.type_of ≡ true
    → s.producer.out ≡ some p
    → get_elem? m.connections p ≡ some (some c)
    → AreBlocks (length m.blocks) sinks
    → (m' : Memory) × (block_disconnect_one2many m source sinks ≡ some m')
      × (get_elem? m'.connections p ≡ some none)
      × ((s' : Block) × (get_elem? m'.blocks source ≡ some s') × (s'.producer.out ≡ some p))
      × (block_disconnect_one2many m' source sinks' ≡ none)
unfolding block_disconnect_one2many
disconnect-dangling m source p sinks sinks' s c at multi out live inside =
    let (m1, e1) = disconnect_sinks-Safe m sinks (some p) inside in
    let (same, conns) =
      Ensures-at (Kept m) _ m1 (disconnect_sinks-Kept m m sinks (some p) ((λ i. refl), refl)) e1 in
    let live1 = ap (λ (cs : List (Option Connection)). get_elem? cs p) conns ∙ live in
    let m2 : Memory = record m1 { connections = set m1.connections p none } in
    let gone : IsFreed m2 p =
      get_elem?-set_self m1.connections p none (get_elem?-some _ p _ live1) in
    let (s1, at1, same1) = producer_of-some _ s.producer (same source ∙ ap producer_of at) in
    let out1 : s1.producer.out ≡ some p = ap (λ (q : Producer). q.out) same1 ∙ out in
    let multi1 = ap (λ (q : Producer). is_producer_multi q.type_of) same1 ∙ multi in
    (
      m2,
      first m1 e1 live1,
      gone,
      (s1, at1, out1),
      disconnect-freed m2 source p sinks' s1 at1 multi1 out1 gone,
    )
  where
    first :
        (m1 : Memory)
        → disconnect_sinks m sinks (some p) ≡ some m1
        → get_elem? m1.connections p ≡ some (some c)
        → block_disconnect_one2many m source sinks
          ≡ some (record m1 { connections = set m1.connections p none })
    first m1 e1 live1 = rw (at, multi, out, e1) (freed-live m1 p c live1)
