-- ===== src/Brain/Passing/Relax.antt =====
-- maintain.go of brainlocal: the second loop of `neuronCast`, over all groups of the neuron.
use rmodel.Blueprint.Neuron.{LinkSet}
use rmodel.Brain.{Brain, BrainLink, Groups, Pointer}
use rmodel.Brain.Cast.{relax_groups, relax_link, relax_links}
use rmodel.Brain.Ensures.{Returns, Returns-continue_with, Returns-mono, Safe-Returns}
use rmodel.Brain.Invariant.{IsBrain, Points, PointsAll}
use rmodel.Brain.Invariant.Casts.{relax_link-Safe}
use rmodel.Brain.Passing.{HasRoom, Passes, in_groups, points_to, relax_state}
use rmodel.Brain.Passing.Change.{Passes-ext, Passes-same, Passes-trans}
use rmodel.Brain.Passing.Links.{relax_link-Returns}
use rmodel.Brain.Passing.Select.{deref-Returns, fuse}
use rmodel.Brain.Step.{pure}
use rmodel.Core.{LinkState, link_init, link_ready, link_wait}
use rmodel.Shared.{
  All, Bool, Bool-cases, List, String, [], ap, arith, eq_cases, false, if◌then◌else◌, inl, inr,
  is_some, none, not, refl, some, sym, true, ℕ, ◌&&◌, ◌==◌, ◌||◌, ◌∙◌, ◌∷◌, ◌≡◌,
}
use rmodel.Shared.Maps.{lookup}

relax_state_idem : (a : Bool) (s : LinkState) → relax_state a (relax_state a s) ≡ relax_state a s
relax_state_idem true s = refl
relax_state_idem false link_init = refl
relax_state_idem false link_wait = refl
relax_state_idem false link_ready = refl

fuse_under :
    (f : LinkState → LinkState) (s : LinkState) (c d m : Bool)
    → f (f s) ≡ f s
    → (if d && m then f (if c && m then f s else s) else (if c && m then f s else s))
      ≡ (if (c || d) && m then f s else s)
fuse_under f s c d true e = ground (arith, fuse f s c d e)
fuse_under f s true true false e = refl
fuse_under f s true false false e = refl
fuse_under f s false true false e = refl
fuse_under f s false false false e = refl

kept_if_marked :
    (i k : String) (sel : LinkSet) (x y : LinkState)
    → is_some (lookup i sel) ≡ true
    → (if i == k && not (is_some (lookup k sel)) then x else y) ≡ y
kept_if_marked i k sel x y h = elim (eq_cases i k) [
  | inl (t, q) ↦ simp (t, sym (ap (λ j. is_some (lookup j sel)) q) ∙ h) refl
  | inr (t, q) ↦ simp (t) refl
]

changed_if_unmarked :
    (i k : String) (sel : LinkSet) (x y : LinkState)
    → is_some (lookup i sel) ≡ false
    → (if i == k then x else y) ≡ (if i == k && not (is_some (lookup k sel)) then x else y)
changed_if_unmarked i k sel x y h = elim (eq_cases i k) [
  | inl (t, q) ↦ simp (t, sym (ap (λ j. is_some (lookup j sel)) q) ∙ h) refl
  | inr (t, q) ↦ simp (t) refl
]

module _ {M : Type 0} (ids : String → Bool) where
  -- The change of a link that was not selected.
  abbrev pub Relaxed : Bool → LinkSet → (String → Bool) → ℕ → Brain M → Brain M → Type 0
  Relaxed a sel among n b b' =
      Passes (λ k s. if among k && not (is_some (lookup k sel)) then relax_state a s else s) n b b'
      × IsBrain ids b'

  relax_one-Returns :
      (a : Bool) (sel : LinkSet) (l : BrainLink) (n : ℕ) (b : Brain M)
      → IsBrain ids b
      → lookup l.id b.links ≡ some l
      → ids l.id ≡ true
      → HasRoom n b
      → Returns
          (λ _ b'. Relaxed a sel (λ k. l.id == k) n b b')
          ((if is_some (lookup l.id sel) then pure tt else relax_link a l) b)
  relax_one-Returns a sel l n b w t h r = elim (Bool-cases (is_some (lookup l.id sel))) [
    | inl e ↦
        simp (e) (Passes-same _ n b (λ k s. kept_if_marked l.id k sel (relax_state a s) s e) r, w)
    | inr e ↦ simp (e) (
        Safe-Returns (IsBrain ids) _ (relax_link a l b) (relax_link-Safe ids a l h b w) (
          Returns-mono _ _ (relax_link a l b) (relax_link-Returns ids a l n b t r) (λ _ b' v.
            Passes-ext _ _ n b b' v (λ k s. changed_if_unmarked l.id k sel (relax_state a s) s e))))
  ]

  relax_links-Returns :
      (a : Bool) (sel : LinkSet) (ps : List Pointer) (n : ℕ) (b : Brain M)
      → IsBrain ids b
      → All (Points ids) ps
      → HasRoom n b
      → Returns (λ _ b'. Relaxed a sel (λ k. points_to k ps) n b b') (relax_links a sel ps b)
  unfolding relax_links
  relax_links-Returns a sel [] n b w h r = (Passes-same _ n b (λ k s. refl) r, w)
  relax_links-Returns a sel (none ∷ ps) n b w h r = elim h.0 [ ]
  relax_links-Returns a sel (some id ∷ ps) n b w h r =
      deref-Returns ids (λ _ b'. Relaxed a sel (λ k. points_to k (some id ∷ ps)) n b b') id _ b w
        h.0
        (λ l t p.
          Returns-continue_with (λ _ b1. Relaxed a sel (λ k. l.id == k) n b b1)
            (λ _ b'. Relaxed a sel (λ k. points_to k (some id ∷ ps)) n b b')
            ((if is_some (lookup l.id sel) then pure tt else relax_link a l) b)
            (λ _. relax_links a sel ps) (relax_one-Returns a sel l n b w t (ap ids p ∙ h.0) r)
            (λ _ b1 (v, w1).
              Returns-mono (λ _ b2. Relaxed a sel (λ k. points_to k ps) n b1 b2)
                (λ _ b'. Relaxed a sel (λ k. points_to k (some id ∷ ps)) n b b')
                (relax_links a sel ps b1) (relax_links-Returns a sel ps n b1 w1 h.1 v.room)
                (λ _ b2 (v2, w2). (
                  Passes-trans _ _ _ n n b b1 b2 v v2 (λ k x.
                      fuse_under (relax_state a) x (l.id == k) (points_to k ps)
                        (not (is_some (lookup k sel))) (relax_state_idem a x)
                      ∙ ap
                          (λ j.
                            if (j == k || points_to k ps) && not (is_some (lookup k sel))
                            then relax_state a x
                            else x)
                          p),
                  w2,
                ))))

  pub relax_groups-Returns :
      (a : Bool) (sel : LinkSet) (groups : Groups) (n : ℕ) (b : Brain M)
      → IsBrain ids b
      → PointsAll ids groups
      → HasRoom n b
      → Returns
          (λ _ b'. Relaxed a sel (λ k. in_groups k groups) n b b')
          (relax_groups a sel groups b)
  unfolding relax_groups
  relax_groups-Returns a sel [] n b w h r = (Passes-same _ n b (λ k s. refl) r, w)
  relax_groups-Returns a sel ((name, ps) ∷ groups) n b w h r =
      Returns-continue_with (λ _ b1. Relaxed a sel (λ k. points_to k ps) n b b1)
        (λ _ b'. Relaxed a sel (λ k. in_groups k ((name, ps) ∷ groups)) n b b')
        (relax_links a sel ps b) (λ _. relax_groups a sel groups)
        (relax_links-Returns a sel ps n b w h.0 r)
        (λ _ b1 (v, w1).
          Returns-mono (λ _ b2. Relaxed a sel (λ k. in_groups k groups) n b1 b2)
            (λ _ b'. Relaxed a sel (λ k. in_groups k ((name, ps) ∷ groups)) n b b')
            (relax_groups a sel groups b1) (relax_groups-Returns a sel groups n b1 w1 h.1 v.room)
            (λ _ b2 (v2, w2). (
              Passes-trans _ _ _ n n b b1 b2 v v2 (λ k x.
                  fuse_under (relax_state a) x (points_to k ps) (in_groups k groups)
                    (not (is_some (lookup k sel))) (relax_state_idem a x)),
              w2,
            )))
