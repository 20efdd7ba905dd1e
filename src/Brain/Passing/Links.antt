-- ===== src/Brain/Passing/Links.antt =====
-- maintain.go of brainlocal: the bodies of the two loops of `neuronCast`, on one link.
use rmodel.Brain.{Brain, BrainLink, Chan, Event, link_ready_event}
use rmodel.Brain.Cast.{cast_later, cast_link, is_wait, ready_link, relax_link, set_link_state}
use rmodel.Brain.Ensures.{Returns}
use rmodel.Brain.Invariant.{IsBrain}
use rmodel.Brain.Invariant.Queues.{same_chan, set_link_state-IsBrain}
use rmodel.Brain.Passing.{HasRoom, Passes, cast_state, relax_state, told, told-append, told_in}
use rmodel.Brain.Passing.Change.{Passes-trans, kept_link-Passes, one_link-Passes, option_map-same}
use rmodel.Brain.Queue.{publish_event, send}
use rmodel.Brain.Step.{pure, returned}
use rmodel.Core.{LinkState, link_init, link_ready, link_wait}
use rmodel.Shared.{
  Bool, List, String, [], ap, arith, eq_refl, false, if◌then◌else◌, inr, length, length-append,
  ltb-true, refl, some, suc, sym, true, ℕ, ◌++◌, ◌+◌, ◌==◌, ◌∙◌, ◌∷◌, ◌≡◌, ◌≤◌,
}
use rmodel.Shared.Maps.{insert, lookup}

told_published : (id : String) (xs : List Event) → told id (xs ++ link_ready_event id ∷ []) ≡ true
told_published id xs = ground (arith, told-append id xs (link_ready_event id ∷ []), eq_refl id)

module _ {M : Type 0} (ids : String → Bool) where
  -- A send that finds a free place.
  abbrev pub published : Chan Event → Event → Brain M → Brain M
  published q event b = record b {
    b_queue = some (record { items = q.items ++ event ∷ []; cap = q.cap; is_closed = false });
  }

  pub publish_event-room :
      (event : Event) (n : ℕ) (b : Brain M) (q : Chan Event)
      → IsBrain ids b
      → b.b_queue ≡ some q
      → length q.items + suc n ≤ q.cap
      → publish_event event b ≡ returned tt (published q event b)
  unfolding publish_event send
  publish_event-room event n b q w e r =
      simp
        (
          publish_event,
          e,
          w.awake,
          send,
          same_chan _ b.b_queue q e w.b_open,
          ltb-true (length q.items) q.cap (omega (arith, r)),
        )
        refl

  published-Passes :
      (event : Event) (n : ℕ) (b : Brain M) (q : Chan Event)
      → b.b_queue ≡ some q
      → length q.items + suc n ≤ q.cap
      → Passes (λ k s. s) n b (published q event b)
  published-Passes event n b q e r = record {
    links = λ k. sym (option_map-same (λ s. s) (lookup k b.links) (λ s. refl));
    neurons = refl;
    state = refl;
    n_queue = refl;
    room = (
      record { items = q.items ++ event ∷ []; cap = q.cap; is_closed = false },
      refl,
      omega (arith, r, length-append q.items (event ∷ [])),
    );
    news = λ k t. inr t;
    keeps = λ k t. ground (arith, told-append k q.items (event ∷ []), sym (ap (told_in k) e) ∙ t);
  }

  ready_link-Returns :
      (l : BrainLink) (f : LinkState → LinkState) (n : ℕ) (b : Brain M)
      → IsBrain ids b
      → lookup l.id b.links ≡ some l
      → ids l.id ≡ true
      → f l.state ≡ link_ready
      → HasRoom (suc n) b
      → Returns (λ _ b'. Passes (λ k s. if l.id == k then f s else s) n b b') (ready_link l b)
  unfolding ready_link set_link_state
  ready_link-Returns l f n b w e i p (q, c, r) =
      let v = published-Passes (link_ready_event l.id) n b q c r in
      rw
        (publish_event-room (link_ready_event l.id) n
          (record b { links = insert l.id (record l { state = link_ready }) b.links }) q
          (set_link_state-IsBrain ids l link_ready b w i) c r)
        (Passes-trans (λ k s. s) (λ k s. if l.id == k then f s else s)
          (λ k s. if l.id == k then f s else s) n n b (published q (link_ready_event l.id) b) _ v
          (one_link-Passes l link_ready f n (published q (link_ready_event l.id) b) e p
            (λ _. told_published l.id q.items) v.room)
          (λ k s. refl))

  less_room : (n : ℕ) (b : Brain M) → HasRoom (suc n) b → HasRoom n b
  less_room n b (q, e, r) = (q, e, omega (arith, r))

  pub cast_link-Returns :
      (a : Bool) (neuron_id : String) (l : BrainLink) (state : LinkState) (n : ℕ) (b : Brain M)
      → IsBrain ids b
      → lookup l.id b.links ≡ some l
      → ids l.id ≡ true
      → l.state ≡ state
      → HasRoom (suc n) b
      → Returns
          (λ _ b'. Passes (λ k s. if l.id == k then cast_state a s else s) n b b')
          (cast_link a neuron_id l state b)
  unfolding cast_link cast_later
  cast_link-Returns true neuron_id l link_wait n b w e i p r =
      ready_link-Returns l (cast_state true) n b w e i refl r
  cast_link-Returns false neuron_id l link_wait n b w e i p r =
      ready_link-Returns l (cast_state false) n b w e i (ap (cast_state false) p) r
  cast_link-Returns true neuron_id l link_init n b w e i p r =
      ready_link-Returns l (cast_state true) n b w e i refl r
  cast_link-Returns false neuron_id l link_init n b w e i p r =
      kept_link-Passes l (cast_state false) n b e (ap (cast_state false) p ∙ sym p)
        (less_room n b r)
  cast_link-Returns true neuron_id l link_ready n b w e i p r =
      let v = kept_link-Passes l (cast_state true) n b e (sym p) (less_room n b r) in
      record {
        links = v.links;
        neurons = refl;
        state = refl;
        n_queue = refl;
        room = v.room;
        news = v.news;
        keeps = v.keeps;
      }
  cast_link-Returns false neuron_id l link_ready n b w e i p r =
      kept_link-Passes l (cast_state false) n b e (ap (cast_state false) p ∙ sym p)
        (less_room n b r)

  pub relax_link-Returns :
      (a : Bool) (l : BrainLink) (n : ℕ) (b : Brain M)
      → lookup l.id b.links ≡ some l
      → HasRoom n b
      → Returns
          (λ _ b'. Passes (λ k s. if l.id == k then relax_state a s else s) n b b')
          (relax_link a l b)
  unfolding relax_link set_link_state
  relax_link-Returns true l n b e r =
      one_link-Passes l link_wait (relax_state true) n b e refl (λ h. cc h) r
  relax_link-Returns false l n b e r = by_state l.state refl
    where
      by_state :
          (state : LinkState)
          → l.state ≡ state
          → Returns
              (λ _ b'. Passes (λ k s. if l.id == k then relax_state false s else s) n b b')
              ((if is_wait l.state then set_link_state l link_init else pure tt) b)
      by_state link_wait p = simp (p) (
          one_link-Passes l link_init (relax_state false) n b e (ap (relax_state false) p)
            (λ h. cc h) r)
      by_state link_init p =
          simp (p)
            (kept_link-Passes l (relax_state false) n b e (ap (relax_state false) p ∙ sym p) r)
      by_state link_ready p =
          simp (p)
            (kept_link-Passes l (relax_state false) n b e (ap (relax_state false) p ∙ sym p) r)
