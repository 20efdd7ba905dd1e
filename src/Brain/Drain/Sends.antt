-- ===== src/Brain/Drain/Sends.antt =====
-- event.go and maintain.go of brainlocal: what a send and a write to a link cost.
use rmodel.Brain.{Brain, BrainLink, Event, link_ready_event}
use rmodel.Brain.Cast.{is_wait, ready_link, set_link_state}
use rmodel.Brain.Drain.{
  AllCalm, Costs, Costs-more, Within, Within-more, event_weight, is_calm, measure, queue_weight,
  queued,
}
use rmodel.Brain.Power.{count_if}
use rmodel.Brain.Queue.{is_shutdown, publish_event, send}
use rmodel.Core.{LinkState, link_ready}
use rmodel.Shared.{
  Bool, Bool-cases, List, Option, Option-cases, String, [], ap, arith, eq_iff, false, if◌then◌else◌,
  inl, inr, le_of_ltb, length, ltb, refl, some, some-injective, subst, suc, true, ℕ, ◌*◌, ◌++◌, ◌+◌,
  ◌==◌, ◌∷◌, ◌≡◌,
}
use rmodel.Shared.Maps.{Map, insert, lookup, lookup-insert}

queue_weight-append :
    (xs ys : List Event) → queue_weight (xs ++ ys) ≡ queue_weight xs + queue_weight ys
queue_weight-append [] ys = omega arith
queue_weight-append (x ∷ xs) ys = omega (arith, queue_weight-append xs ys)

AllCalm-append : (xs ys : List Event) → AllCalm xs → AllCalm ys → AllCalm (xs ++ ys)
AllCalm-append [] ys h k = k
AllCalm-append (x ∷ xs) ys h k = (h.0, AllCalm-append xs ys h.1 k)

abbrev pub one_if : Bool → ℕ
one_if true = 1
one_if false = 0

pub head_or_rest :
    {V : Type 0} (c : Bool) (x old : V) (o : Option V)
    → (if c then some x else o) ≡ some old
    → (c ≡ true → x ≡ old) × (c ≡ false → o ≡ some old)
head_or_rest true x old o e = (λ h. some-injective x old e, λ h. cc h)
head_or_rest false x old o e = (λ h. cc h, λ h. e)

module _ {V : Type 0} (p : V → Bool) where
  count_step : (c : Bool) (n : ℕ) → (if c then suc n else n) ≡ n + one_if c
  count_step true n = omega arith
  count_step false n = omega arith

  -- A write to an entry counts for that entry only.
  pub count_if-insert :
      (k : String) (v old : V) (m : Map V)
      → lookup k m ≡ some old
      → count_if p (insert k v m) + one_if (p old) ≡ count_if p m + one_if (p v)
  unfolding lookup insert count_if
  count_if-insert k v old [] e = cc e
  count_if-insert k v old ((j, x) ∷ m) e =
      let (here, there) = head_or_rest (j == k) x old (lookup k m) e in
      elim (Bool-cases (j == k)) [
        | inl h ↦
            simp (h, insert)
              (omega (
                arith,
                count_step (p v) (count_if p m),
                count_step (p x) (count_if p m),
                ap (λ y. one_if (p y)) (here h),
              ))
        | inr h ↦
            simp (h, insert)
              (omega (
                arith,
                count_if-insert k v old m (there h),
                count_step (p x) (count_if p (insert k v m)),
                count_step (p x) (count_if p m),
              ))
      ]

insert-keyed :
    (l : BrainLink) (links : Map BrainLink)
    → ((k : String) (l' : BrainLink) → lookup k links ≡ some l' → l'.id ≡ k)
    → (k : String) (l' : BrainLink) → lookup k (insert l.id l links) ≡ some l'
    → l'.id ≡ k
insert-keyed l links h k l' e =
    ground (arith, lookup-insert l.id k l links, h k l', eq_iff l.id k, e)

module _ {M : Type 0} where
  pub publish_event-Costs :
      (event : Event) (n : ℕ) (b : Brain M)
      → is_calm event.action ≡ true
      → Within n b
      → Costs (n + event_weight event) (publish_event event b)
  unfolding publish_event send
  publish_event-Costs event n b calm w = elim (Option-cases b.b_queue) [
    | inl e ↦ simp (e, publish_event) (Within-more n (n + event_weight event) b (omega arith) w)
    | inr (q, e) ↦ elim (Bool-cases (is_shutdown b.state)) [
      | inl s ↦
          simp (e, s, publish_event) (Within-more n (n + event_weight event) b (omega arith) w)
      | inr s ↦ elim (Bool-cases q.is_closed) [
        | inl c ↦ simp (e, s, c, publish_event, send) tt
        | inr c ↦ elim (Bool-cases (ltb (length q.items) q.cap)) [
          | inr full ↦
              simp (e, s, c, full, publish_event, send)
                (inl (q, refl, le_of_ltb (length q.items) q.cap full))
          | inl free ↦
              simp (e, s, c, free, publish_event, send)
                (record {
                  calm =
                      AllCalm-append q.items (event ∷ []) (subst (λ o. AllCalm (queued o)) e w.calm)
                        (calm, tt);
                  keyed = w.keyed;
                  small = omega (
                    arith,
                    w.small,
                    queue_weight-append q.items (event ∷ []),
                    ap (λ o. queue_weight (queued o)) e,
                  );
                })
        ]
      ]
    ]
  ]

  -- A link that leaves its state for one that does not wait, with what that saves.
  pub set_link_state-Within :
      (l : BrainLink) (state : LinkState) (n : ℕ) (b : Brain M)
      → lookup l.id b.links ≡ some l
      → is_wait state ≡ false
      → Within (n + 5 * one_if (is_wait l.state)) b
      → Within n (record b { links = insert l.id (record l { state = state }) b.links })
  set_link_state-Within l state n b e s w = record {
    calm = w.calm;
    keyed = insert-keyed (record l { state = state }) b.links w.keyed;
    small = omega (
      arith,
      w.small,
      ap one_if s,
      count_if-insert (λ x. is_wait x.state) l.id (record l { state = state }) l b.links e,
    );
  }

  -- A waiting link that becomes ready pays for the event that it sends.
  pub ready_link-Costs :
      (l : BrainLink) (n : ℕ) (b : Brain M)
      → lookup l.id b.links ≡ some l
      → is_wait l.state ≡ true
      → Within n b
      → Costs n (ready_link l b)
  unfolding ready_link set_link_state
  ready_link-Costs l n b e s w =
      let b1 : Brain M = record b {
        links = insert l.id (record l { state = link_ready }) b.links;
      } in
      let counted =
        count_if-insert (λ x. is_wait x.state) l.id (record l { state = link_ready }) l b.links e in
      Costs-more (measure b1 + 5) n (publish_event (link_ready_event l.id) b1)
        (omega (arith, w.small, counted, ap one_if s))
        (publish_event-Costs (link_ready_event l.id) (measure b1) b1 refl (record {
          calm = w.calm;
          keyed = insert-keyed (record l { state = link_ready }) b.links w.keyed;
          small = omega arith;
        }))
