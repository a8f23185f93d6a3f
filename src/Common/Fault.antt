-- ===== src/Common/Fault.antt =====
-- A computation that reads memory: `none` is a read outside the buffer, which C leaves undefined.
use Prim.Native.Nat.{ℕ, zero, suc, ◌<◌}
use mathlib.Core.Path.{◌≡◌}
use mathlib.Core.List.{List, [], ◌∷◌}
use mathlib.Core.Option.{Option, none, some}
use native.Mathlib.Omega.{arith}
use dumphfdl.Common.Lists.{length, get_elem?, get_or, get_elem?-lt}

infixl 5 ◌>>=◌ ◌>>◌
abbrev pub ◌>>=◌ {ℓ κ} : {A : Type ℓ} {B : Type κ} → Option A → (A → Option B) → Option B
none >>= f = none
some a >>= f = f a

abbrev pub ◌>>◌ {ℓ} : {B : Type ℓ} → Option (Unit {0}) → Option B → Option B
m >> k = m >>= λ _. k

-- `buf[i]`, and the value that it has within bounds.
abbrev pub peek : List ℕ → ℕ → Option ℕ
peek = get_elem?

abbrev pub byte_at : List ℕ → ℕ → ℕ
byte_at buf i = get_or buf i 0

pub peek-lt : (buf : List ℕ) (i : ℕ) → i < length buf → peek buf i ≡ some (byte_at buf i)
peek-lt buf i h = get_elem?-lt buf i 0 h

-- A buffer of uint8_t.
abbrev pub IsOctets : List ℕ → Type 0
IsOctets [] = Unit
IsOctets (b ∷ bytes) = (b < 256) × IsOctets bytes

pub byte_at-lt : (buf : List ℕ) (i : ℕ) → IsOctets buf → byte_at buf i < 256
byte_at-lt [] i h = omega arith
byte_at-lt (b ∷ bytes) zero h = h.0
byte_at-lt (b ∷ bytes) (suc i) h = byte_at-lt bytes i h.1

-- A computation that meets no fault.
abbrev pub Safe {ℓ} : {A : Type ℓ} → Option A → Type ℓ
Safe {A} m = (a : A) × (m ≡ some a)

pub Safe->>= {ℓ κ} :
    {A : Type ℓ} {B : Type κ} (m : Option A) (f : A → Option B)
    → Safe m
    → ((a : A) → Safe (f a))
    → Safe (m >>= f)
Safe->>= m f (a, e) h = rw e (h a)

pub Safe-peek : (buf : List ℕ) (i : ℕ) → i < length buf → Safe (peek buf i)
Safe-peek buf i h = (byte_at buf i, peek-lt buf i h)

-- What a computation returns, if it meets no fault.
abbrev pub Ensures {ℓ κ} : {A : Type ℓ} → (A → Type κ) → Option A → Type κ
Ensures P none = Unit
Ensures P (some a) = P a

pub Ensures->>= {ℓ κ} :
    {A B : Type ℓ} (P : A → Type κ) (Q : B → Type κ) (m : Option A) (f : A → Option B)
    → Ensures P m
    → ((a : A) → P a → Ensures Q (f a))
    → Ensures Q (m >>= f)
Ensures->>= P Q none f p h = _
Ensures->>= P Q (some a) f p h = h a p

pub Ensures-all {ℓ κ} :
    {A B : Type ℓ} (Q : B → Type κ) (m : Option A) (f : A → Option B)
    → ((a : A) → Ensures Q (f a))
    → Ensures Q (m >>= f)
Ensures-all Q none f h = _
Ensures-all Q (some a) f h = h a

pub Ensures-at {ℓ κ} :
    {A : Type ℓ} (P : A → Type κ) (m : Option A) (a : A) → Ensures P m → m ≡ some a → P a
Ensures-at P m a p e = rw e at p
