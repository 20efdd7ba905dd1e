-- ===== src/Brain/Step.antt =====
-- What a piece of Go code does to the state that it runs on.

-- It returns; it blocks at a send into a full channel, with what it did before; or it panics.
pub data Step {ℓ κ} (S : Type ℓ) (A : Type κ) : Type (ℓ ⊔ κ) where
  returned : A → S → Step S A
  blocked : S → Step S A
  panicked : S → Step S A

abbrev pub Go {ℓ κ} : Type ℓ → Type κ → Type (ℓ ⊔ κ)
Go S A = S → Step S A

abbrev pub continue_with {ℓ κ μ} :
    {S : Type ℓ} {A : Type κ} {B : Type μ} → Step S A → (A → Go S B) → Step S B
continue_with (returned a s) f = f a s
continue_with (blocked s) f = blocked s
continue_with (panicked s) f = panicked s

infixl 5 ◌>>=◌ ◌>>◌
abbrev pub ◌>>=◌ {ℓ κ μ} : {S : Type ℓ} {A : Type κ} {B : Type μ} → Go S A → (A → Go S B) → Go S B
◌>>=◌ m f s = continue_with (m s) f

abbrev pub ◌>>◌ {ℓ κ μ} : {S : Type ℓ} {A : Type κ} {B : Type μ} → Go S A → Go S B → Go S B
◌>>◌ m k s = continue_with (m s) (λ _. k)

abbrev pub pure {ℓ κ} : {S : Type ℓ} {A : Type κ} → A → Go S A
pure a s = returned a s

abbrev pub gets {ℓ κ} : {S : Type ℓ} {A : Type κ} → (S → A) → Go S A
gets f s = returned (f s) s

abbrev pub modify {ℓ} : {S : Type ℓ} → (S → S) → Go S (Unit {0})
modify f s = returned tt (f s)

-- A run on a part of the state.
abbrev pub run_on {ℓ κ μ} : {S : Type ℓ} {T : Type κ} {A : Type μ} → (T → S) → Step T A → Step S A
run_on back (returned a t) = returned a (back t)
run_on back (blocked t) = blocked (back t)
run_on back (panicked t) = panicked (back t)

abbrev pub panic {ℓ κ} : {S : Type ℓ} {A : Type κ} → Go S A
panic s = panicked s
