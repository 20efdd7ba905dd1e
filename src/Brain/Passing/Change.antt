-- ===== src/Brain/Passing/Change.antt =====
-- maintain.go of brainlocal: changes of link states compose, and a write to one link is a change.
use rmodel.Brain.{Brain, BrainLink}
use rmodel.Brain.Firing.{ready_at, ready_of}
use rmodel.Brain.Passing.{HasRoom, Passes, told_in, with_state}
use rmodel.Brain.Power.{is_ready}
use rmodel.Core.{LinkState}
use rmodel.Shared.{
  Bool-cases, Option, String, ap, eq_cases, false, if◌then◌else◌, inl, inr, none, option_map, refl,
  some, subst, sym, true, ℕ, ◌==◌, ◌∙◌, ◌≡◌,
}
use rmodel.Shared.Maps.{Map, insert, lookup, lookup-insert}

pub option_map-twice :
    (f g h : LinkState → LinkState) (o : Option BrainLink)
    → ((s : LinkState) → g (f s) ≡ h s)
    → option_map (with_state g) (option_map (with_state f) o) ≡ option_map (with_state h) o
option_map-twice f g h none e = refl
option_map-twice f g h (some l) e = ap (λ s. some (record l { state = s })) (e l.state)

pub option_map-same :
    (f : LinkState → LinkState) (o : Option BrainLink)
    → ((s : LinkState) → f s ≡ s)
    → option_map (with_state f) o ≡ o
option_map-same f none e = refl
option_map-same f (some l) e = ap (λ s. some (record l { state = s })) (e l.state)

ready_at_inserted :
    (i k : String) (l : BrainLink) (links : Map BrainLink)
    → (i == k) ≡ true
    → ready_at (insert i l links) (some k) ≡ is_ready l.state
ready_at_inserted i k l links c =
    ap ready_of (lookup-insert i k l links)
    ∙ ap (λ t. ready_of (if t then some l else lookup k links)) c

ready_at_other :
    (i k : String) (l : BrainLink) (links : Map BrainLink)
    → (i == k) ≡ false
    → ready_at (insert i l links) (some k) ≡ ready_at links (some k)
ready_at_other i k l links c =
    ap ready_of (lookup-insert i k l links)
    ∙ ap (λ t. ready_of (if t then some l else lookup k links)) c

module _ {M : Type 0} where
  pub Passes-trans :
      (f g h : String → LinkState → LinkState) (n m : ℕ) (b b' b'' : Brain M)
      → Passes f n b b'
      → Passes g m b' b''
      → ((k : String) (s : LinkState) → g k (f k s) ≡ h k s)
      → Passes h m b b''
  Passes-trans f g h n m b b' b'' v w e = record {
    links = λ k.
        w.links k
        ∙ ap (option_map (with_state (g k))) (v.links k)
        ∙ option_map-twice (f k) (g k) (h k) (lookup k b.links) (e k);
    neurons = w.neurons ∙ v.neurons;
    state = w.state ∙ v.state;
    n_queue = w.n_queue ∙ v.n_queue;
    room = w.room;
    news = λ k r. elim (w.news k r) [
      | inl t ↦ inl t
      | inr r' ↦ elim (v.news k r') [ inl t ↦ inl (w.keeps k t) | inr r'' ↦ inr r'' ]
    ];
    keeps = λ k t. w.keeps k (v.keeps k t);
  }

  pub Passes-same :
      (f : String → LinkState → LinkState) (n : ℕ) (b : Brain M)
      → ((k : String) (s : LinkState) → f k s ≡ s)
      → HasRoom n b
      → Passes f n b b
  Passes-same f n b e r = record {
    links = λ k. sym (option_map-same (f k) (lookup k b.links) (e k));
    neurons = refl;
    state = refl;
    n_queue = refl;
    room = r;
    news = λ k t. inr t;
    keeps = λ k t. t;
  }

  -- A state of one link that is set, or left as it is.
  pub one_link-Passes :
      (l : BrainLink) (state : LinkState) (f : LinkState → LinkState) (n : ℕ) (b : Brain M)
      → lookup l.id b.links ≡ some l
      → f l.state ≡ state
      → (is_ready state ≡ true → told_in l.id b.b_queue ≡ true)
      → HasRoom n b
      → Passes
          (λ k s. if l.id == k then f s else s)
          n
          b
          (record b { links = insert l.id (record l { state = state }) b.links })
  one_link-Passes l state f n b e p h r = record {
    links = λ k.
        lookup-insert l.id k (record l { state = state }) b.links ∙ elim (eq_cases l.id k) [
          | inl (t, q) ↦ simp (t, sym (ap (λ j. lookup j b.links) q) ∙ e, p) refl
          | inr (t, q) ↦ simp (t) (sym (option_map-same (λ s. s) (lookup k b.links) (λ s. refl)))
        ];
    neurons = refl;
    state = refl;
    n_queue = refl;
    room = r;
    news = λ k t. elim (eq_cases l.id k) [
      | inl (c, q) ↦ elim (Bool-cases (is_ready state)) [
        | inl y ↦ inl (subst (λ j. told_in j b.b_queue ≡ true) q (h y))
        | inr y ↦ cc (y, t, ready_at_inserted l.id k (record l { state = state }) b.links c)
      ]
      | inr (c, q) ↦ inr (sym (ready_at_other l.id k (record l { state = state }) b.links c) ∙ t)
    ];
    keeps = λ k t. t;
  }

  pub kept_link-Passes :
      (l : BrainLink) (f : LinkState → LinkState) (n : ℕ) (b : Brain M)
      → lookup l.id b.links ≡ some l
      → f l.state ≡ l.state
      → HasRoom n b
      → Passes (λ k s. if l.id == k then f s else s) n b b
  kept_link-Passes l f n b e p r = record {
    links = λ k. elim (eq_cases l.id k) [
      | inl (t, q) ↦ simp (t, sym (ap (λ j. lookup j b.links) q) ∙ e, p) refl
      | inr (t, q) ↦ simp (t) (sym (option_map-same (λ s. s) (lookup k b.links) (λ s. refl)))
    ];
    neurons = refl;
    state = refl;
    n_queue = refl;
    room = r;
    news = λ k t. inr t;
    keeps = λ k t. t;
  }

pub Passes-ext :
    {M : Type 0} (f g : String → LinkState → LinkState) (n : ℕ) (b b' : Brain M)
    → Passes f n b b'
    → ((k : String) (s : LinkState) → f k s ≡ g k s)
    → Passes g n b b'
Passes-ext f g n b b' v e =
    Passes-trans f (λ k s. s) g n n b b' b' v (Passes-same (λ k s. s) n b' (λ k s. refl) v.room) e
