-- ===== src/Brain/Ensures.antt =====
-- Rules for the effect `Go`: what holds of the state that a run leaves, for a run that does not
-- panic.
use rmodel.Brain.Step.{Go, Step, blocked, continue_with, panicked, returned, ◌>>=◌, ◌>>◌}
use rmodel.Shared.{Bool, false, if◌then◌else◌, subst, true, ◌≡◌}

-- The run returns into a state of `I`, or blocks in one; it does not panic.
abbrev pub Safe {ℓ} : {S : Type 0} {A : Type ℓ} → (S → Type 0) → Step S A → Type 0
Safe I (returned a s) = I s
Safe I (blocked s) = I s
Safe I (panicked s) = ⊥

abbrev pub Keeps {ℓ} : {S : Type 0} {A : Type ℓ} → (S → Type 0) → Go S A → Type 0
Keeps {S = S} I m = (s : S) → I s → Safe I (m s)

pub Safe-continue_with {ℓ κ} :
    {S : Type 0} {A : Type ℓ} {B : Type κ} (I : S → Type 0) (x : Step S A) (f : A → Go S B)
    → Safe I x
    → ((a : A) → Keeps I (f a))
    → Safe I (continue_with x f)
Safe-continue_with I (returned a s) f h k = k a s h
Safe-continue_with I (blocked s) f h k = h
Safe-continue_with I (panicked s) f h k = elim h [ ]

module _ {S : Type 0} (I : S → Type 0) where
  pub Keeps->>= {ℓ κ} :
      {A : Type ℓ} {B : Type κ} (m : Go S A) (f : A → Go S B)
      → Keeps I m
      → ((a : A) → Keeps I (f a))
      → Keeps I (m >>= f)
  Keeps->>= m f h k s w = Safe-continue_with I (m s) f (h s w) k

  pub Keeps->> {ℓ κ} :
      {A : Type ℓ} {B : Type κ} (m : Go S A) (n : Go S B) → Keeps I m → Keeps I n → Keeps I (m >> n)
  Keeps->> m n h k s w = Safe-continue_with I (m s) (λ _. n) (h s w) (λ _. k)

  pub Keeps-if {ℓ} :
      {A : Type ℓ} (c : Bool) (m n : Go S A) → Keeps I m → Keeps I n → Keeps I (if c then m else n)
  Keeps-if true m n h k = h
  Keeps-if false m n h k = k

  pub Safe-returned {ℓ} :
      {A : Type ℓ} {x : Step S A} {a : A} {s : S} → x ≡ returned a s → Safe I x → I s
  Safe-returned e h = subst (Safe I) e h

-- The run returns, into a state of `P`.
abbrev pub Returns {ℓ} : {S : Type 0} {A : Type ℓ} → (A → S → Type 0) → Step S A → Type 0
Returns P (returned a s) = P a s
Returns P (blocked s) = ⊥
Returns P (panicked s) = ⊥

pub Returns-continue_with {ℓ κ} :
    {S : Type 0} {A : Type ℓ} {B : Type κ} (P : A → S → Type 0) (Q : B → S → Type 0) (x : Step S A)
    (f : A → Go S B)
    → Returns P x
    → ((a : A) (s : S) → P a s → Returns Q (f a s))
    → Returns Q (continue_with x f)
Returns-continue_with P Q (returned a s) f h k = k a s h
Returns-continue_with P Q (blocked s) f h k = elim h [ ]
Returns-continue_with P Q (panicked s) f h k = elim h [ ]

pub Safe-Returns {ℓ} :
    {S : Type 0} {A : Type ℓ} (I : S → Type 0) (P : A → S → Type 0) (x : Step S A)
    → Safe I x
    → Returns P x
    → Returns (λ a s. P a s × I s) x
Safe-Returns I P (returned a s) h k = (k, h)
Safe-Returns I P (blocked s) h k = elim k [ ]
Safe-Returns I P (panicked s) h k = elim k [ ]

pub Returns-mono {ℓ} :
    {S : Type 0} {A : Type ℓ} (P Q : A → S → Type 0) (x : Step S A)
    → Returns P x
    → ((a : A) (s : S) → P a s → Q a s)
    → Returns Q x
Returns-mono P Q (returned a s) h k = k a s h
Returns-mono P Q (blocked s) h k = elim h [ ]
Returns-mono P Q (panicked s) h k = elim h [ ]
