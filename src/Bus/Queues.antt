-- ===== src/Bus/Queues.antt =====
-- How each call of polytrader/events/bus.py changes what waits in one queue.
use polytrader.Prelude.{
  ℕ, zero, suc, String, ◌≡◌, refl, Bool, Option, none, some, List, [], ◌∷◌, ◌++◌, length, map,
  if◌then◌else◌, string_eq, ◌==◌, eq_of_==, Bool-cases, inl, inr, arith, leb, ◌&&◌,
}
use polytrader.Dict.{lookup, lookup-insert}
use polytrader.Bus.EventBus.{
  IEventStore, EventBus, get_elem?, update_at, tail, queues_of, topic_queues, change_found,
  change_queues, subscribe, pending, get, persist, put_all, deliver, publish,
}

-- `m == n`
abbrev pub same_place : ℕ → ℕ → Bool
same_place m n = leb m n && leb n m

module _ {A : Type 0} where
  get_elem?-append :
      (xs : List A) (n : ℕ) (a y : A)
      → get_elem? xs n ≡ some a
      → get_elem? (xs ++ (y ∷ [])) n ≡ some a
  get_elem?-append [] n a y h = ground (arith, h)
  get_elem?-append (x ∷ xs) zero a y h = h
  get_elem?-append (x ∷ xs) (suc n) a y h = get_elem?-append xs n a y h

  pub get_elem?-length : (xs : List A) (a : A) → get_elem? (xs ++ (a ∷ [])) (length xs) ≡ some a
  get_elem?-length [] a = refl
  get_elem?-length (x ∷ xs) a = get_elem?-length xs a

  get_elem?-map :
      (f : A → A) (xs : List A) (n : ℕ) (a : A)
      → get_elem? xs n ≡ some a
      → get_elem? (map f xs) n ≡ some (f a)
  get_elem?-map f [] n a h = ground (arith, h)
  get_elem?-map f (x ∷ xs) zero a h = ground (arith, h)
  get_elem?-map f (x ∷ xs) (suc n) a h = get_elem?-map f xs n a h

  get_elem?-update :
      (m : ℕ) (f : A → A) (xs : List A) (n : ℕ) (a : A)
      → get_elem? xs n ≡ some a
      → get_elem? (update_at m f xs) n ≡ some (if same_place m n then f a else a)
  get_elem?-update m f [] n a h = ground (arith, h)
  get_elem?-update zero f (x ∷ xs) zero a h = ground (arith, h)
  get_elem?-update zero f (x ∷ xs) (suc n) a h = ground (arith, h)
  get_elem?-update (suc m) f (x ∷ xs) zero a h = ground (arith, h)
  get_elem?-update (suc m) f (x ∷ xs) (suc n) a h = ground (arith, get_elem?-update m f xs n a h)

module _ {M S : Type 0} where
  -- How each call changes the queues of a topic t.
  pub topic_queues-subscribe :
      (u t : String) (b : EventBus M S)
      → topic_queues t (subscribe u b).1
        ≡ (if u == t then topic_queues u b ++ ([] ∷ []) else topic_queues t b)
  unfolding topic_queues subscribe
  topic_queues-subscribe u t b =
      ground (arith, lookup-insert u t (queues_of (lookup u b.queues) ++ ([] ∷ [])) b.queues)

  topic_queues-change_found :
      (u t : String) (f : List (List M) → List (List M)) (b : EventBus M S)
      (o : Option (List (List M)))
      → lookup u b.queues ≡ o
      → f [] ≡ []
      → topic_queues t (change_found u f b o)
        ≡ (if u == t then f (queues_of o) else topic_queues t b)
  unfolding topic_queues
  topic_queues-change_found u t f b none e h = elim (Bool-cases (u == t)) [
    | inl k ↦ rw (k, ← eq_of_== u t k, e, h) refl
    | inr k ↦ rw (k) refl
  ]
  topic_queues-change_found u t f b (some qs) e h =
      ground (arith, lookup-insert u t (f qs) b.queues)

  topic_queues-change :
      (u t : String) (f : List (List M) → List (List M)) (b : EventBus M S)
      → f [] ≡ []
      → topic_queues t (change_queues u f b)
        ≡ (if u == t then f (topic_queues u b) else topic_queues t b)
  unfolding topic_queues change_queues
  topic_queues-change u t f b = topic_queues-change_found u t f b (lookup u b.queues) refl

  -- What waits in one queue, after each call.
  pub pending-subscribe :
      (u t : String) (n : ℕ) (q : List M) (b : EventBus M S)
      → pending t n b ≡ some q
      → pending t n (subscribe u b).1 ≡ some q
  unfolding pending
  pending-subscribe u t n q b h = rw (topic_queues-subscribe u t b) (elim (Bool-cases (u == t)) [
    | inl k ↦ rw (k) (get_elem?-append (topic_queues u b) n q [] (rw (eq_of_== u t k) h))
    | inr k ↦ rw (k) h
  ])

  pub pending-get :
      (u t : String) (m n : ℕ) (q : List M) (b : EventBus M S)
      → pending t n b ≡ some q
      → pending t n (get u m b).1 ≡ some (if (u == t) && same_place m n then tail q else q)
  unfolding pending get
  pending-get u t m n q b h =
      rw (topic_queues-change u t (update_at m tail) b refl) (elim (Bool-cases (u == t)) [
        | inl k ↦ rw (k) (get_elem?-update m tail (topic_queues u b) n q (rw (eq_of_== u t k) h))
        | inr k ↦ rw (k) h
      ])

  module _ (i : IEventStore M S) where
    persist-queues : (msg : M) (b : EventBus M S) → (persist i msg b).queues ≡ b.queues
    unfolding persist
    persist-queues msg b = ground arith

    persisted :
        (msg : M) (t : String) (n : ℕ) (q : List M) (b : EventBus M S)
        → pending t n b ≡ some q
        → pending t n (persist i msg b) ≡ some q
    unfolding pending topic_queues
    persisted msg t n q b h = rw (persist-queues msg b) h

    pub pending-publish :
        (u t : String) (n : ℕ) (msg : M) (q : List M) (b : EventBus M S)
        → pending t n b ≡ some q
        → pending t n (publish i u msg b) ≡ some (if u == t then q ++ (msg ∷ []) else q)
    unfolding pending publish deliver
    pending-publish u t n msg q b h =
        rw (topic_queues-change u t (put_all i msg) (persist i msg b) refl)
          (elim (Bool-cases (u == t)) [
            | inl k ↦ rw (k) (
                get_elem?-map (λ q. q ++ (msg ∷ [])) (topic_queues u (persist i msg b)) n q
                  (rw (eq_of_== u t k) (persisted msg t n q b h)))
            | inr k ↦ rw (k) (persisted msg t n q b h)
          ])
