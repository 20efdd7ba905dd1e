-- ===== src/Brain/Passing/Whole.antt =====
-- maintain.go of brainlocal: what a whole call of `neuronCast` does.
use rmodel.Brain.{Brain, BrainNeuron, Memory}
use rmodel.Brain.Cast.{
  cast_selected, is_inactive, neuron_cast, pointers_of, relax_groups, selected_group,
}
use rmodel.Brain.Ensures.{Returns, Returns-continue_with, Returns-mono}
use rmodel.Brain.Invariant.{IsBrain, PointsAll}
use rmodel.Brain.Invariant.Casts.{pointers_of-Safe}
use rmodel.Brain.Passing.{HasRoom, Passes, cast_state, in_groups, points_to, relax_state}
use rmodel.Brain.Passing.Change.{Passes-trans}
use rmodel.Brain.Passing.Relax.{Relaxed, relax_groups-Returns}
use rmodel.Brain.Passing.Select.{Selected, cast_selected-Returns}
use rmodel.Core.{LinkState}
use rmodel.Shared.{
  Bool, String, [], arith, false, if◌then◌else◌, is_some, length, not, refl, true, ◌&&◌, ◌||◌, ◌≡◌,
}
use rmodel.Shared.Maps.{lookup}

-- The state of a link after the cast, by whether it is in the selected group and in some group.
abbrev pub passed_on : Bool → Bool → Bool → LinkState → LinkState
passed_on a selected member state =
    if selected then cast_state a state else if member then relax_state a state else state

both_loops :
    (a c d m : Bool) (x : LinkState)
    → c ≡ (d || false)
    → (if m && not c
        then relax_state a (if d then cast_state a x else x)
        else (if d then cast_state a x else x))
      ≡ passed_on a d m x
both_loops a true true true x e = refl
both_loops a true true false x e = refl
both_loops a false false true x e = refl
both_loops a false false false x e = refl
both_loops a true false m x e = cc e
both_loops a false true m x e = cc e

-- In a brain that is awake and well formed, a cast of an inactive neuron, or one that is forced, from
-- a neuron whose groups point to links of the brain, returns if the channel of the maintainer has
-- a free place for each link of the selected group. Each link of that group is then ready, unless
-- the cast is not forced and the link was not waiting; each other link of the neuron is waiting
-- again if the cast is forced, and else leaves the waiting state for the initial one; all other
-- links, the neurons and the state of the brain stay. The channel keeps its news of ready links,
-- and has the news of each link that the cast made ready.
pub neuron_cast_lem :
    {M : Type 0} ⦃mem : Memory M⦄ (ids : String → Bool) (n : BrainNeuron) (a : Bool) (b : Brain M)
    → IsBrain ids b
    → PointsAll ids n.cast_groups
    → (not a && not (is_inactive n.state)) ≡ false
    → HasRoom (length (pointers_of (lookup (selected_group n b) n.cast_groups))) b
    → Returns
        (λ _ b'.
          Passes
            (λ k.
              passed_on a
                (points_to k (pointers_of (lookup (selected_group n b) n.cast_groups)))
                (in_groups k n.cast_groups))
            0
            b
            b')
        (neuron_cast n a b)
unfolding neuron_cast lookup
neuron_cast_lem ids n a b w h guard (q, e, r) =
    let ps = pointers_of (lookup (selected_group n b) n.cast_groups) in
    simp (neuron_cast, guard)
      (Returns-continue_with (Selected ids a ps [] 0 b)
        (λ _ b'. Passes (λ k. passed_on a (points_to k ps) (in_groups k n.cast_groups)) 0 b b')
        (cast_selected a n.id ps [] b) (λ sel. relax_groups a sel n.cast_groups)
        (cast_selected-Returns ids a n.id ps [] 0 b w
          (pointers_of-Safe ids (selected_group n b) n.cast_groups h) (q, e, omega (arith, r)))
        (λ sel b1 (v, w1, m).
          Returns-mono (λ _ b2. Relaxed ids a sel (λ k. in_groups k n.cast_groups) 0 b1 b2)
            (λ _ b'. Passes (λ k. passed_on a (points_to k ps) (in_groups k n.cast_groups)) 0 b b')
            (relax_groups a sel n.cast_groups b1)
            (relax_groups-Returns ids a sel n.cast_groups 0 b1 w1 h v.room)
            (λ _ b2 (v2, w2). Passes-trans _ _ _ 0 0 b b1 b2 v v2 (λ k x.
              both_loops a (is_some (lookup k sel)) (points_to k ps) (in_groups k n.cast_groups) x
                (m k)))))
