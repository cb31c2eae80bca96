-- ===== src/Messaging/Topology/Laws.antt =====
-- What the topology that is declared in the broker holds: each queue once, and every consumer's queue
-- bound under its own name.
use core_desappsii.Base.{
  ◌≡◌, refl, ◌∙◌, sym, ap, Bool, true, false, ◌||◌, List, [], ◌∷◌, ◌++◌, map, arith, any, In, head,
  tail, Bool-cases, inl, inr,
}
use core_desappsii.Text.{Text, text_eq, text_eq-eq, text_eq_refl}
use core_desappsii.Messaging.Topology.{
  Settings, QueueSpec, BindingSpec, same_exchange, same_queue, same_binding, base_topology,
  consumer_queue, consumer_binding, full_topology, merge, consumer_topology,
}
use core_desappsii.Messaging.Topology.Dedupe.{dedupe_from, dedupe, sorted_set, In-sorted_set}

any-append {ℓ} :
    {A : Type ℓ} (p : A → Bool) (xs ys : List A) → any p (xs ++ ys) ≡ any p xs || any p ys
any-append p [] ys = refl
any-append p (x ∷ xs) ys = ground (arith, any-append p xs ys)

module _ {ℓ} {A : Type ℓ} (same : A → A → Bool) where
  -- No two entries have one key: none is like one that stands before it.
  abbrev pub HasDistinct : List A → Type 0
  HasDistinct [] = Unit
  HasDistinct (x ∷ xs) = (any (λ y. same y x) xs ≡ false) × HasDistinct xs

  HasDistinct-append :
      (xs : List A) (y : A)
      → HasDistinct xs
      → any (λ x. same y x) xs ≡ false
      → HasDistinct (xs ++ y ∷ [])
  HasDistinct-append [] y h k = (refl, tt)
  HasDistinct-append (x ∷ xs) y h k = elim (Bool-cases (same y x)) [
    | inl e ↦ absurd (cc (rw e at k))
    | inr e ↦ (
      any-append (λ z. same z x) xs (y ∷ []) ∙ rw (h.0, e) refl,
      HasDistinct-append xs y h.1 (rw e at k),
    )
  ]

  dedupe_from-HasDistinct :
      (out xs : List A) → HasDistinct out → HasDistinct (dedupe_from same out xs)
  unfolding dedupe_from
  dedupe_from-HasDistinct out [] h = h
  dedupe_from-HasDistinct out (x ∷ xs) h = elim (Bool-cases (any (λ y. same x y) out)) [
    | inl e ↦ rw e (dedupe_from-HasDistinct out xs h)
    | inr e ↦ rw e (dedupe_from-HasDistinct (out ++ x ∷ []) xs (HasDistinct-append out x h e))
  ]

  any-same :
      (p : A → Bool) (x : A) (out : List A)
      → ((a b : A) → same a b ≡ true → p a ≡ p b)
      → any (λ y. same x y) out ≡ true
      → p x ≡ true
      → any p out ≡ true
  any-same p x [] respects seen holds = absurd (cc seen)
  any-same p x (y ∷ ys) respects seen holds = elim (Bool-cases (same x y)) [
    | inl e ↦ rw (sym (respects x y e) ∙ holds) refl
    | inr e ↦ rw (any-same p x ys respects (rw e at seen) holds) (or_true (p y))
  ]
    where
      or_true : (b : Bool) → b || true ≡ true
      or_true b = ground arith

  -- A test that looks at the key only finds in the list without duplicates what it found in the list.
  pub any-dedupe_from :
      (p : A → Bool) (out xs : List A)
      → ((a b : A) → same a b ≡ true → p a ≡ p b)
      → any p out || any p xs ≡ true
      → any p (dedupe_from same out xs) ≡ true
  unfolding dedupe_from
  any-dedupe_from p out [] respects found = ground arith
  any-dedupe_from p out (x ∷ xs) respects found = elim (Bool-cases (any (λ y. same x y) out)) [
    | inl e ↦ rw e (any-dedupe_from p out xs respects (skipped e))
    | inr e ↦ rw e (
        any-dedupe_from p (out ++ x ∷ []) xs respects
          (rw (any-append p out (x ∷ [])) (ground arith)))
  ]
    where
      skipped : any (λ y. same x y) out ≡ true → any p out || any p xs ≡ true
      skipped e = elim (Bool-cases (p x)) [
        | inl holds ↦ rw (any-same p x out respects e holds) refl
        | inr fails ↦ rw fails at found
      ]

-- What the two tests of a consumer look at.
abbrev pub has_queue : Text → List QueueSpec → Bool
has_queue name queues = any (λ q. text_eq q.name name) queues

abbrev pub has_binding : BindingSpec → List BindingSpec → Bool
has_binding b bindings = any (λ c. same_binding c b) bindings

same_queue-name :
    (name : Text) (a b : QueueSpec)
    → same_queue a b ≡ true
    → text_eq a.name name ≡ text_eq b.name name
same_queue-name name a b h = ap (λ n. text_eq n name) (text_eq-eq a.name b.name h)

pub same_binding-eq :
    (a b : BindingSpec)
    → same_binding a b ≡ true
    → (a.queue ≡ b.queue) × (a.exchange ≡ b.exchange) × (a.routing_key ≡ b.routing_key)
same_binding-eq a b h = (
  text_eq-eq a.queue b.queue (ground arith),
  text_eq-eq a.exchange b.exchange (ground arith),
  text_eq-eq a.routing_key b.routing_key (ground arith),
)

pub same_binding-same_binding :
    (c a b : BindingSpec) → same_binding a b ≡ true → same_binding a c ≡ same_binding b c
same_binding-same_binding c a b h =
    let (queue, exchange, routing_key) = same_binding-eq a b h in
    rw (queue, exchange, routing_key) refl

any-map-In {ℓ} :
    {A : Type ℓ} (p : A → Bool) (f : Text → A) (name : Text) (names : List Text)
    → p (f name) ≡ true
    → In name names
    → any p (map f names) ≡ true
any-map-In p f name (x ∷ names) h head = rw h refl
any-map-In p f name (x ∷ names) h (tail m) = rw (any-map-In p f name names h m) (or_true (p (f x)))
  where
    or_true : (b : Bool) → b || true ≡ true
    or_true b = ground arith
any-map-In p f name [] h m = elim m [ ]

any-right {ℓ} :
    {A : Type ℓ} (p : A → Bool) (xs ys : List A) → any p ys ≡ true → any p (xs ++ ys) ≡ true
any-right p xs ys h = any-append p xs ys ∙ rw h (or_true (any p xs))
  where
    or_true : (b : Bool) → b || true ≡ true
    or_true b = ground arith

pub full_topology-binds :
    (s : Settings) (names : List Text) (name : Text)
    → In name names
    → (has_queue name (full_topology s names).queues ≡ true)
      × (has_binding (consumer_binding s name) (full_topology s names).bindings ≡ true)
unfolding full_topology merge dedupe consumer_topology consumer_queue consumer_binding
full_topology-binds s names name m =
    let sorted = In-sorted_set name names m in
    (
      any-dedupe_from same_queue (λ q. text_eq q.name name) []
          ((base_topology s).queues ++ map (consumer_queue s) (sorted_set names))
          (same_queue-name name)
          (any-right (λ q. text_eq q.name name) (base_topology s).queues
            (map (consumer_queue s) (sorted_set names))
            (any-map-In (λ q. text_eq q.name name) (consumer_queue s) name (sorted_set names)
              (text_eq_refl name) sorted)),
      any-dedupe_from same_binding (λ c. same_binding c (consumer_binding s name)) []
          ((base_topology s).bindings ++ map (consumer_binding s) (sorted_set names))
          (same_binding-same_binding (consumer_binding s name))
          (any-right (λ c. same_binding c (consumer_binding s name)) (base_topology s).bindings
            (map (consumer_binding s) (sorted_set names))
            (any-map-In (λ c. same_binding c (consumer_binding s name)) (consumer_binding s) name
              (sorted_set names) (rw (text_eq_refl name, text_eq_refl s.exchange_events) refl)
              sorted)),
    )

-- Whatever queues are asked for, repeated or not, the topology declares no exchange, queue or binding
-- twice: exchanges and queues are told apart by name, bindings by their three fields.
pub full_topology-HasDistinct :
    (s : Settings) (names : List Text)
    → HasDistinct same_exchange (full_topology s names).exchanges
      × HasDistinct same_queue (full_topology s names).queues
      × HasDistinct same_binding (full_topology s names).bindings
unfolding full_topology merge dedupe
full_topology-HasDistinct s names = (
  dedupe_from-HasDistinct same_exchange []
      ((base_topology s).exchanges ++ (consumer_topology s (sorted_set names)).exchanges) tt,
  dedupe_from-HasDistinct same_queue []
      ((base_topology s).queues ++ (consumer_topology s (sorted_set names)).queues) tt,
  dedupe_from-HasDistinct same_binding []
      ((base_topology s).bindings ++ (consumer_topology s (sorted_set names)).bindings) tt,
)
