-- ===== src/Bus/Delivery.antt =====
-- What polytrader/events/bus.py promises a subscriber: every message of its topic that is published
-- after it subscribed, in order, and nothing else.
use polytrader.Prelude.{
  ℕ, zero, suc, ◌≤◌, String, ◌≡◌, refl, sym, ap, ◌∙◌, true, Option, none, some, List, [], ◌∷◌, ◌++◌,
  length, length-append, if◌then◌else◌, string_eq, ◌==◌, eq_of_==, ==_refl, Bool-cases, inl, inr,
  arith, ◌&&◌,
}
use mathlib.Core.List.{append-nil, append_assoc}
use polytrader.Bus.EventBus.{
  IEventStore, EventBus, tail, head?, front, topic_queues, subscribe, pending, get, publish,
}
use polytrader.Bus.Queues.{
  same_place, get_elem?-length, pending-subscribe, pending-get, pending-publish,
  topic_queues-subscribe,
}

-- The calls on a bus, in the order in which they are made.
pub data Call (M : Type 0) : Type 0 where
  subscribes : String → Call M
  publishes : String → M → Call M
  gets_next : String → ℕ → Call M

-- The messages published on a topic.
abbrev pub published_on : {M : Type 0} → String → List (Call M) → List M
published_on t [] = []
published_on t (subscribes _ ∷ calls) = published_on t calls
published_on t (publishes u msg ∷ calls) =
    if u == t then msg ∷ published_on t calls else published_on t calls
published_on t (gets_next _ _ ∷ calls) = published_on t calls

abbrev to_list : {M : Type 0} → Option M → List M
to_list none = []
to_list (some x) = x ∷ []

front-tail : {M : Type 0} (q : List M) → to_list (head? q) ++ tail q ≡ q
front-tail [] = refl
front-tail (x ∷ q) = refl

published_on-cons :
    {M : Type 0} (t : String) (c : Call M) (calls : List (Call M))
    → published_on t (c ∷ []) ++ published_on t calls ≡ published_on t (c ∷ calls)
published_on-cons t (subscribes _) calls = refl
published_on-cons t (publishes u msg) calls = ground arith
published_on-cons t (gets_next _ _) calls = refl

abbrev drop : {M : Type 0} → ℕ → List M → List M
drop zero xs = xs
drop (suc k) xs = drop k (tail xs)

drop-short : {M : Type 0} (k : ℕ) (xs : List M) → length xs ≤ k → drop k xs ≡ []
drop-short zero [] h = refl
drop-short zero (x ∷ xs) h = ground (arith, h)
drop-short (suc k) [] h = drop-short k [] (omega arith)
drop-short (suc k) (x ∷ xs) h = drop-short k xs (omega (arith, h))

-- k calls of `get` on one queue.
abbrev pub gets_of : {M : Type 0} → String → ℕ → ℕ → List (Call M)
gets_of t n zero = []
gets_of t n (suc k) = gets_next t n ∷ gets_of t n k

module _ {M S : Type 0} (i : IEventStore M S) where
  abbrev pub call : Call M → EventBus M S → EventBus M S
  call (subscribes t) b = (subscribe t b).1
  call (publishes t msg) b = publish i t msg b
  call (gets_next t n) b = (get t n b).1

  abbrev pub run : List (Call M) → EventBus M S → EventBus M S
  run [] b = b
  run (c ∷ calls) b = run calls (call c b)

  -- What a call returns to the holder of the n-th queue of topic t.
  abbrev returned : String → ℕ → Call M → EventBus M S → List M
  returned t n (gets_next u m) b = if (u == t) && same_place m n then to_list (get u m b).0 else []
  returned t n _ b = []

  abbrev pub received : String → ℕ → List (Call M) → EventBus M S → List M
  received t n [] b = []
  received t n (c ∷ calls) b = returned t n c b ++ received t n calls (call c b)

  get-front :
      (u t : String) (m n : ℕ) (b : EventBus M S) (q : List M)
      → pending t n b ≡ some q
      → ((u == t) && same_place m n) ≡ true
      → (get u m b).0 ≡ head? q
  unfolding get
  get-front u t m n b q h hit =
      let same_topic : u ≡ t = eq_of_== u t (ground (arith, hit)) in
      let same_queue : m ≡ n = ground (arith, hit) in rw (same_topic, same_queue) (ap front h)

  -- One call: what it returns and what then waits is what waited and what it publishes.
  call-Conserves :
      (t : String) (n : ℕ) (c : Call M) (b : EventBus M S) (q : List M)
      → pending t n b ≡ some q
      → (p : List M) × (pending t n (call c b) ≡ some p)
        × (returned t n c b ++ p ≡ q ++ published_on t (c ∷ []))
  call-Conserves t n (subscribes u) b q h = (q, pending-subscribe u t n q b h, sym (append-nil q))
  call-Conserves t n (publishes u msg) b q h = (
    if u == t then q ++ (msg ∷ []) else q,
    pending-publish i u t n msg q b h,
    ground (arith, append-nil q),
  )
  call-Conserves t n (gets_next u m) b q h = (
    if (u == t) && same_place m n then tail q else q,
    pending-get u t m n q b h,
    elim (Bool-cases ((u == t) && same_place m n)) [
      | inl hit ↦ rw (hit, get-front u t m n b q h hit, append-nil q) (front-tail q)
      | inr miss ↦ rw (miss) (sym (append-nil q))
    ],
  )

  -- A subscriber that holds a queue in which q waits: whatever calls follow, on any topics and by
  -- any subscribers, what its `get`s return and what still waits is q and then every message that
  -- was published on its topic, in the order of publication, whether or not the event store raises.
  pub run-Conserves :
      (t : String) (n : ℕ) (calls : List (Call M)) (b : EventBus M S) (q : List M)
      → pending t n b ≡ some q
      → (p : List M) × (pending t n (run calls b) ≡ some p)
        × (received t n calls b ++ p ≡ q ++ published_on t calls)
  run-Conserves t n [] b q h = (q, h, sym (append-nil q))
  run-Conserves t n (c ∷ calls) b q h =
      let (q', h', first) = call-Conserves t n c b q h in
      let (p, h'', rest) = run-Conserves t n calls (call c b) q' h' in
      (
        p,
        h'',
        append_assoc (returned t n c b) (received t n calls (call c b)) p
            ∙ ap (λ x. returned t n c b ++ x) rest
            ∙ sym (append_assoc (returned t n c b) q' (published_on t calls))
            ∙ ap (λ x. x ++ published_on t calls) first
            ∙ append_assoc q (published_on t (c ∷ [])) (published_on t calls)
            ∙ ap (λ x. q ++ x) (published_on-cons t c calls),
      )

  -- k `get`s on a queue leave what it held less its k oldest messages.
  pending-gets :
      (t : String) (n k : ℕ) (b : EventBus M S) (q : List M)
      → pending t n b ≡ some q
      → pending t n (run (gets_of t n k) b) ≡ some (drop k q)
  pending-gets t n zero b q h = h
  pending-gets t n (suc k) b q h =
      pending-gets t n k (call (gets_next t n) b) (tail q)
        (pending-get t t n n q b h ∙ ground (arith, ==_refl t))

  run-append : (cs ds : List (Call M)) (b : EventBus M S) → run (cs ++ ds) b ≡ run ds (run cs b)
  run-append [] ds b = refl
  run-append (c ∷ cs) ds b = run-append cs ds (call c b)

  published_on-gets :
      (t : String) (n k : ℕ) (calls : List (Call M))
      → published_on t (calls ++ gets_of t n k) ≡ published_on t calls
  published_on-gets t n zero [] = refl
  published_on-gets t n (suc k) [] = published_on-gets t n k []
  published_on-gets t n k (subscribes _ ∷ calls) = published_on-gets t n k calls
  published_on-gets t n k (publishes u msg ∷ calls) = ground (arith, published_on-gets t n k calls)
  published_on-gets t n k (gets_next _ _ ∷ calls) = published_on-gets t n k calls

  pending-fresh :
      (t : String) (b : EventBus M S) → pending t (subscribe t b).0 (subscribe t b).1 ≡ some []
  unfolding pending subscribe
  pending-fresh t b =
      rw (topic_queues-subscribe t t b, ==_refl t) (get_elem?-length (topic_queues t b) [])

  length-pending : (xs p ys : List M) (k : ℕ) → xs ++ p ≡ ys → length ys ≤ k → length p ≤ k
  length-pending xs p ys k e h = omega (arith, ap length e, length-append xs p, h)

  -- Liveness. Whatever calls follow a subscription, a subscriber that then calls `get` at least as
  -- often as messages were published on its topic has received exactly those, in order.
  pub received-subscribe :
      (t : String) (b : EventBus M S) (calls : List (Call M)) (k : ℕ)
      → length (published_on t calls) ≤ k
      → let (n, joined) = subscribe t b in
        received t n (calls ++ gets_of t n k) joined ≡ published_on t calls
  received-subscribe t b calls k enough =
      let (n, joined) = subscribe t b in
      let fresh = pending-fresh t b in
      let gets = gets_of t n k in
      let (p, h, before) = run-Conserves t n calls joined [] fresh in
      let (r, left, all) = run-Conserves t n (calls ++ gets) joined [] fresh in
      let drained : some r ≡ some [] =
        sym left
        ∙ ap (pending t n) (run-append calls gets joined)
        ∙ pending-gets t n k (run calls joined) p h
        ∙ ap some (
            drop-short k p (
              length-pending (received t n calls joined) p (published_on t calls) k before
                enough)) in
      let nothing : r ≡ [] = ground (arith, drained) in
      sym (append-nil (received t n (calls ++ gets) joined))
      ∙ ap (λ x. received t n (calls ++ gets) joined ++ x) (sym nothing)
      ∙ all
      ∙ published_on-gets t n k calls
