-- ===== src/Json/Nesting.antt =====
-- The rules by which a formatter keeps the JSON document well-formed.
use dumphfdl.Common.{◌≡◌, refl, ◌∙◌, Option, none, some, ◌>>=◌, ◌⊎◌, inl, inr, List, [], ◌∷◌, ◌++◌}
use Prim.Native.String.{String}
use dumphfdl.Json.{Event, Frame, object, accept, scan, Out, calls, ◌▸◌, ask, defined}

-- From any state the formatter meets no fault, and its calls lead from one nesting to another.
abbrev pub Runs : {W D : Type 0} → List Frame → Out W D → List Frame → Type 0
Runs {W} {D} fs f gs = (w : W) → (r : W × List (Event D)) × (f w ≡ some r) × (scan fs r.1 ≡ some gs)

module _ {D : Type 0} where
  after-append :
      (o : Option (List Frame)) (es es' : List (Event D))
      → ((gs : List Frame) → scan gs (es ++ es') ≡ (scan gs es >>= λ hs. scan hs es'))
      → (o >>= λ gs. scan gs (es ++ es')) ≡ ((o >>= λ gs. scan gs es) >>= λ hs. scan hs es')
  after-append none es es' h = refl
  after-append (some gs) es es' h = h gs

  pub scan-append :
      (fs : List Frame) (es es' : List (Event D))
      → scan fs (es ++ es') ≡ (scan fs es >>= λ gs. scan gs es')
  scan-append fs [] es' = refl
  scan-append fs (e ∷ es) es' = after-append (accept fs e) es es' λ gs. scan-append gs es es'

module _ {W D : Type 0} where
  pub Runs-calls :
      {fs gs : List Frame} (es : List (Event D))
      → scan fs es ≡ some gs
      → Runs fs (calls {W = W} es) gs
  unfolding calls
  Runs-calls es e w = ((w, es), refl, e)

  pub Runs-seq :
      {fs gs hs : List Frame} {f g : Out W D} → Runs fs f gs → Runs gs g hs → Runs fs (f ▸ g) hs
  unfolding ◌▸◌
  Runs-seq {fs} p q w =
      let (r, e, n) = p w in
      let (r', e', n') = q r.0 in
      ((r'.0, r.1 ++ r'.1), rw (e, e') refl, scan-append fs r.1 r'.1 ∙ rw n n')

  pub Runs-ask {ℓ} :
      {A : Type ℓ} {fs gs : List Frame} (m : W → W × A) (k : A → Out W D)
      → ((a : A) → Runs fs (k a) gs)
      → Runs fs (ask m k) gs
  unfolding ask
  Runs-ask m k h w = h (m w).1 (m w).0

  pub Runs-defined {ℓ} :
      {A : Type ℓ} {fs gs : List Frame} (m : Option A) (a : A) (k : A → Out W D)
      → m ≡ some a
      → Runs fs (k a) gs
      → Runs fs (defined m k) gs
  unfolding defined
  Runs-defined m a k e p w = rw e (p w)

  -- Two groups of calls, of which only the whole is balanced.
  pub Runs-both :
      {fs gs : List Frame} (es es' : List (Event D))
      → scan fs (es ++ es') ≡ some gs
      → Runs fs (calls {W = W} es ▸ calls es') gs
  unfolding ◌▸◌ calls
  Runs-both es es' e w = ((w, es ++ es'), refl, e)

  -- The formatter adds members to the open object, and leaves nothing else open.
  abbrev pub Fills : List Frame → List String → Out W D → Type 0
  Fills fs ks f = (ks' : List String) × Runs (object ks ∷ fs) f (object ks' ∷ fs)

  pub Fills-of :
      {fs : List Frame} {ks ks' : List String} {f : Out W D}
      → Runs (object ks ∷ fs) f (object ks' ∷ fs)
      → Fills fs ks f
  Fills-of p = (_, p)

  pub Fills-seq :
      {fs : List Frame} {ks ks' : List String} {f g : Out W D}
      → Runs (object ks ∷ fs) f (object ks' ∷ fs)
      → Fills fs ks' g
      → Fills fs ks (f ▸ g)
  Fills-seq p (ks'', q) = (ks'', Runs-seq p q)

-- The formatter meets a fault, and P holds, or its calls lead from one nesting to another.
abbrev pub RunsOr : {W D : Type 0} → Type 0 → List Frame → Out W D → List Frame → Type 0
RunsOr {W} {D} P fs f gs =
    (w : W)
    → ((f w ≡ none) × P) ⊎ ((r : W × List (Event D)) × (f w ≡ some r) × (scan fs r.1 ≡ some gs))

module _ {W D P : Type 0} where
  pub RunsOr-of : {fs gs : List Frame} {f : Out W D} → Runs fs f gs → RunsOr P fs f gs
  RunsOr-of p w = inr (p w)

  pub RunsOr-calls :
      {fs gs : List Frame} (es : List (Event D))
      → scan fs es ≡ some gs
      → RunsOr P fs (calls {W = W} es) gs
  RunsOr-calls es e = RunsOr-of (Runs-calls es e)

  pub RunsOr-seq :
      {fs gs hs : List Frame} {f g : Out W D}
      → RunsOr P fs f gs
      → RunsOr P gs g hs
      → RunsOr P fs (f ▸ g) hs
  unfolding ◌▸◌
  RunsOr-seq {fs} p q w = elim (p w) [
    | inl (e, why) ↦ inl (rw e refl, why)
    | inr (r, e, n) ↦ elim (q r.0) [
      | inl (e', why) ↦ inl (rw (e, e') refl, why)
      | inr (r', e', n') ↦
          inr ((r'.0, r.1 ++ r'.1), rw (e, e') refl, scan-append fs r.1 r'.1 ∙ rw n n')
    ]
  ]

  pub RunsOr-ask {ℓ} :
      {A : Type ℓ} {fs gs : List Frame} (m : W → W × A) (k : A → Out W D)
      → ((w : W) → RunsOr P fs (k (m w).1) gs)
      → RunsOr P fs (ask m k) gs
  unfolding ask
  RunsOr-ask m k h w = h w (m w).0

-- The formatter meets a fault, and P holds, or adds members to the open object and leaves nothing else
-- open.
abbrev pub FillsOr : {W D : Type 0} → Type 0 → List Frame → List String → Out W D → Type 0
FillsOr P fs ks f = (ks' : List String) × RunsOr P (object ks ∷ fs) f (object ks' ∷ fs)

module _ {W D P : Type 0} where
  pub FillsOr-of :
      {fs : List Frame} {ks ks' : List String} {f : Out W D}
      → RunsOr P (object ks ∷ fs) f (object ks' ∷ fs)
      → FillsOr P fs ks f
  FillsOr-of p = (_, p)

  pub FillsOr-seq :
      {fs : List Frame} {ks ks' : List String} {f g : Out W D}
      → RunsOr P (object ks ∷ fs) f (object ks' ∷ fs)
      → FillsOr P fs ks' g
      → FillsOr P fs ks (f ▸ g)
  FillsOr-seq p (ks'', q) = (ks'', RunsOr-seq p q)
