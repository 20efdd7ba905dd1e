-- ===== src/Brain/Passing/Select.antt =====
-- maintain.go of brainlocal: the first loop of `neuronCast`, over the selected group.
use rmodel.Blueprint.Neuron.{LinkSet}
use rmodel.Brain.{Brain, BrainLink, Pointer}
use rmodel.Brain.Cast.{cast_link, cast_selected, deref}
use rmodel.Brain.Ensures.{Returns, Returns-continue_with, Returns-mono, Safe-Returns}
use rmodel.Brain.Invariant.{IsBrain, Points}
use rmodel.Brain.Invariant.Casts.{cast_link-Safe}
use rmodel.Brain.Passing.{HasRoom, Passes, cast_state, points_to}
use rmodel.Brain.Passing.Change.{Passes-same, Passes-trans}
use rmodel.Brain.Passing.Links.{cast_link-Returns}
use rmodel.Brain.Step.{Go, continue_with}
use rmodel.Core.{LinkState, link_init, link_ready, link_wait}
use rmodel.Shared.{
  All, Bool, List, Option-cases, String, [], ap, arith, false, if◌then◌else◌, inl, inr, is_some,
  length, none, refl, some, true, ℕ, ◌+◌, ◌==◌, ◌||◌, ◌∙◌, ◌∷◌, ◌≡◌,
}
use rmodel.Shared.Maps.{insert, lookup, lookup-insert}

cast_state_idem : (a : Bool) (s : LinkState) → cast_state a (cast_state a s) ≡ cast_state a s
cast_state_idem true s = refl
cast_state_idem false link_init = refl
cast_state_idem false link_wait = refl
cast_state_idem false link_ready = refl

-- A change that is made twice is made once.
pub fuse :
    (f : LinkState → LinkState) (s : LinkState) (c d : Bool)
    → f (f s) ≡ f s
    → (if d then f (if c then f s else s) else (if c then f s else s)) ≡ (if c || d then f s else s)
fuse f s true true e = e
fuse f s true false e = refl
fuse f s false true e = refl
fuse f s false false e = refl

marked :
    (i k : String) (c : Bool) (sel : LinkSet)
    → (c || is_some (lookup k (insert i tt sel))) ≡ (i == k || c || is_some (lookup k sel))
marked i k true sel = ground arith
marked i k false sel = ground (arith, lookup-insert i k tt sel)

module _ {M : Type 0} (ids : String → Bool) where
  pub deref-Returns :
      {A : Type 0} (P : A → Brain M → Type 0) (id : String) (f : BrainLink → Go (Brain M) A)
      (b : Brain M)
      → IsBrain ids b
      → ids id ≡ true
      → ((l : BrainLink) → lookup l.id b.links ≡ some l → l.id ≡ id → Returns P (f l b))
      → Returns P (continue_with (deref (some id) b) f)
  unfolding deref
  deref-Returns P id f b w h k = elim (Option-cases (lookup id b.links)) [
    | inl e ↦ cc (ap is_some e, w.wired.links_there id, h)
    | inr (l, e) ↦
        let q = w.wired.links_keyed id l e in
        simp (deref, e) (k l (ap (λ j. lookup j b.links) q ∙ e) q)
  ]

  -- What the loop over the selected group did.
  abbrev pub Selected : Bool → List Pointer → LinkSet → ℕ → Brain M → LinkSet → Brain M → Type 0
  Selected a ps sel n b r b' =
      Passes (λ k s. if points_to k ps then cast_state a s else s) n b b'
      × IsBrain ids b'
      × ((k : String) → is_some (lookup k r) ≡ (points_to k ps || is_some (lookup k sel)))

  pub cast_selected-Returns :
      (a : Bool) (neuron_id : String) (ps : List Pointer) (sel : LinkSet) (n : ℕ) (b : Brain M)
      → IsBrain ids b
      → All (Points ids) ps
      → HasRoom (length ps + n) b
      → Returns (Selected a ps sel n b) (cast_selected a neuron_id ps sel b)
  unfolding cast_selected
  cast_selected-Returns a nid [] sel n b w h (q, e, r) =
      (Passes-same (λ k s. s) n b (λ k s. refl) (q, e, omega (arith, r)), w, λ k. refl)
  cast_selected-Returns a nid (none ∷ ps) sel n b w h r = elim h.0 [ ]
  cast_selected-Returns a nid (some id ∷ ps) sel n b w h (q, e, r) =
      deref-Returns (Selected a (some id ∷ ps) sel n b) id _ b w h.0 (λ l t p.
        Returns-continue_with
          (λ _ b1.
            Passes (λ k s. if l.id == k then cast_state a s else s) (length ps + n) b b1
            × IsBrain ids b1)
          (Selected a (some id ∷ ps) sel n b) (cast_link a nid l l.state b)
          (λ _. cast_selected a nid ps (insert l.id tt sel))
          (Safe-Returns (IsBrain ids) _ (cast_link a nid l l.state b)
            (cast_link-Safe ids a nid l l.state (ap ids p ∙ h.0) b w)
            (cast_link-Returns ids a nid l l.state (length ps + n) b w t (ap ids p ∙ h.0) refl
              (q, e, omega (arith, r))))
          (λ _ b1 (v, w1).
            Returns-mono (Selected a ps (insert l.id tt sel) n b1)
              (Selected a (some id ∷ ps) sel n b) (cast_selected a nid ps (insert l.id tt sel) b1)
              (cast_selected-Returns a nid ps (insert l.id tt sel) n b1 w1 h.1 v.room)
              (λ s b2 (v2, w2, m). (
                Passes-trans _ _ _ (length ps + n) n b b1 b2 v v2 (λ k x.
                    fuse (cast_state a) x (l.id == k) (points_to k ps) (cast_state_idem a x)
                    ∙ ap (λ j. if (j == k || points_to k ps) then cast_state a x else x) p),
                w2,
                λ k.
                    m k
                    ∙ marked l.id k (points_to k ps) sel
                    ∙ ap (λ j. j == k || points_to k ps || is_some (lookup k sel)) p,
              ))))
