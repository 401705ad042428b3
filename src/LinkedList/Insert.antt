-- ===== src/LinkedList/Insert.antt =====
-- What insertions and deletions do to the contents of a list.
use avocado.Common.{
  ℕ, ◌≡◌, refl, ap, ◌∙◌, subst, true, false, ◌||◌, Option, none, some, List, [], ◌∷◌, ◌++◌, length,
  get_elem?, set, get_elem?-set_self, get_elem?-set_ne, length-set, ◌==◌, arith, ◌>>=◌,
}
use avocado.LinkedList.Chain.{
  Chain, uses, distinct, Chain-append, Chain-set, get_elem?-append_left, get_elem?-append_new,
  get_elem?-lt,
}
use avocado.LinkedList.{
  Node, NodeList, before_begin, begin_of, increment, emplace_after, erase_after, emplace_front,
}

module _ {A : Type 0} where
  -- A new node in front, with the address after all others
  emplace_front_lem :
      (l : NodeList A) (xs : List (ℕ × A)) (v : A)
      → Chain l.nodes l.head xs
      → Chain (emplace_front l v).nodes (emplace_front l v).head ((length l.nodes, v) ∷ xs)
  unfolding Chain emplace_front
  emplace_front_lem l xs v c =
      (refl, l.head, get_elem?-append_new l.nodes _, Chain-append l.nodes _ l.head xs c)

  -- The node at `a` in the middle
  pub middle_at :
      (nodes : List (Node A)) (p : Option ℕ) (before after : List (ℕ × A)) (a : ℕ) (x : A)
      → Chain nodes p (before ++ ((a, x) ∷ after))
      → (next : Option ℕ) × (get_elem? nodes a ≡ some (record { val = x; next = next }))
        × Chain nodes next after
  unfolding Chain
  middle_at nodes p [] after a x (e, next, at, rest) = (next, at, rest)
  middle_at nodes p ((b, y) ∷ before) after a x (e, next, at, rest) =
      middle_at nodes next before after a x rest

  -- If what follows the node at `a` changes, the list before it stays.
  middle_set :
      (nodes nodes' : List (Node A)) (p : Option ℕ) (before after after' : List (ℕ × A)) (a : ℕ)
      (x : A)
      → distinct (before ++ ((a, x) ∷ after)) ≡ true
      → Chain nodes p (before ++ ((a, x) ∷ after))
      → ((b : ℕ) (n : Node A)
          → uses b before ≡ true
          → get_elem? nodes b ≡ some n
          → get_elem? nodes' b ≡ some n)
      → Chain nodes' (some a) ((a, x) ∷ after')
      → Chain nodes' p (before ++ ((a, x) ∷ after'))
  unfolding Chain
  middle_set nodes nodes' p [] after after' a x d c keep tail = rw c.0 tail
  middle_set nodes nodes' p ((b, y) ∷ before) after after' a x d (e, next, at, rest) keep tail = (
    e,
    next,
    keep b _ (ground arith) at,
    middle_set nodes nodes' next before after after' a x (ground (arith, d)) rest
        (λ c n h. keep c n (ground (arith, h))) tail,
  )

  pub uses-append : (b : ℕ) (xs ys : List (ℕ × A)) → uses b (xs ++ ys) ≡ (uses b xs || uses b ys)
  uses-append b [] ys = refl
  uses-append b ((a, x) ∷ xs) ys = ground (arith, uses-append b xs ys)

  distinct_after :
      (before after : List (ℕ × A)) (a : ℕ) (x : A)
      → distinct (before ++ ((a, x) ∷ after)) ≡ true
      → (uses a after ≡ false) × (distinct after ≡ true)
  distinct_after [] after a x d = ground (arith, d)
  distinct_after ((b, y) ∷ before) after a x d = distinct_after before after a x (ground (arith, d))

  distinct_before :
      (before after : List (ℕ × A)) (b : ℕ)
      → distinct (before ++ after) ≡ true
      → uses b before ≡ true
      → uses b after ≡ false
  distinct_before [] after b d h = absurd (ground (arith, h))
  distinct_before ((c, y) ∷ before) after b d h =
      ground (arith, d, h, uses-append c before after, distinct_before before after b, alike)
    where
      alike : (b == c) ≡ true → uses b after ≡ uses c after
      alike e = let same : b ≡ c = ground (arith, e) in ap (λ k. uses k after) same

  abbrev linked : List (Node A) → ℕ → A → A → Option ℕ → List (Node A)
  linked nodes a x v next =
      set nodes a (record { val = x; next = some (length nodes) })
      ++ (record { val = v; next = next } ∷ [])

  module _ (nodes : List (Node A)) (a : ℕ) (x v : A) (next : Option ℕ)
      (at : get_elem? nodes a ≡ some (record { val = x; next = next })) where
    linked_at :
        get_elem? (linked nodes a x v next) a
        ≡ some (record { val = x; next = some (length nodes) })
    linked_at =
        get_elem?-append_left (set nodes a _) _ a _
          (get_elem?-set_self nodes a _ (get_elem?-lt nodes a _ at))

    linked_new :
        get_elem? (linked nodes a x v next) (length nodes) ≡ some (record { val = v; next = next })
    linked_new =
        let written = set nodes a (record { val = x; next = some (length nodes) }) in
        subst (λ i. get_elem? (linked nodes a x v next) i ≡ some (record { val = v; next = next }))
          (length-set nodes a _) (get_elem?-append_new written (record { val = v; next = next }))

    linked_keeps :
        (b : ℕ) (n : Node A)
        → (a == b) ≡ false
        → get_elem? nodes b ≡ some n
        → get_elem? (linked nodes a x v next) b ≡ some n
    linked_keeps b n h e =
        get_elem?-append_left (set nodes a _) _ b n
          (get_elem?-set_ne nodes _ (ground (arith, h)) ∙ e)

  -- A new node behind the node at `a`, with the address after all others; the iterator goes to it.
  pub emplace_after_lem :
      (l : NodeList A) (before after : List (ℕ × A)) (a : ℕ) (x v : A)
      → distinct (before ++ ((a, x) ∷ after)) ≡ true
      → Chain l.nodes l.head (before ++ ((a, x) ∷ after))
      → (l' : NodeList A) × (emplace_after l (record { ptr = some a; before_head = false }) v
          ≡ some (l', record { ptr = some (length l.nodes); before_head = false }))
        × Chain l'.nodes l'.head (before ++ ((a, x) ∷ (length l.nodes, v) ∷ after))
  unfolding Chain emplace_after increment
  emplace_after_lem l before after a x v d c =
      let (next, at, rest) = middle_at l.nodes l.head before after a x c in
      (
        record l { nodes = linked l.nodes a x v next },
        rw (at, ◌>>=◌, linked_at l.nodes a x v next at) refl,
        middle_set l.nodes (linked l.nodes a x v next) l.head before after
            ((length l.nodes, v) ∷ after) a x d c
            (λ b n used e.
              linked_keeps l.nodes a x v next at b n
                (ground (arith, distinct_before before ((a, x) ∷ after) b d used)) e)
            (
              refl,
              some (length l.nodes),
              linked_at l.nodes a x v next at,
              (
                refl,
                next,
                linked_new l.nodes a x v next at,
                Chain-append (set l.nodes a _) _ next after
                    (Chain-set l.nodes a _ next after (distinct_after before after a x d).0 rest),
              ),
            ),
      )

  -- Before the head: whatever the list held, it holds the new value alone.
  pub emplace_before_lem :
      (l : NodeList A) (v : A)
      → (l' : NodeList A) × (emplace_after l (before_begin l) v ≡ some (l', begin_of l'))
        × Chain l'.nodes l'.head ((length l.nodes, v) ∷ [])
  unfolding Chain emplace_after
  emplace_before_lem l v = (
    record l {
      nodes = l.nodes ++ (record { val = v; next = none } ∷ []);
      head = some (length l.nodes);
    },
    refl,
    (refl, none, get_elem?-append_new l.nodes _, refl),
  )

  -- The node behind the one at `a` leaves the list.
  pub erase_after_lem :
      (l : NodeList A) (before after : List (ℕ × A)) (a b : ℕ) (x y : A)
      → distinct (before ++ ((a, x) ∷ (b, y) ∷ after)) ≡ true
      → Chain l.nodes l.head (before ++ ((a, x) ∷ (b, y) ∷ after))
      → (l' : NodeList A) × (erase_after l (record { ptr = some a; before_head = false })
          ≡ some (l', record { ptr = some a; before_head = false }))
        × Chain l'.nodes l'.head (before ++ ((a, x) ∷ after))
  unfolding Chain erase_after
  erase_after_lem l before after a b x y d c =
      let (next, at, (e_b, next_b, at_b, rest)) =
        middle_at l.nodes l.head before ((b, y) ∷ after) a x c in
      let unlinked : List (Node A) = set l.nodes b (record { val = y; next = none }) in
      (
        record l { nodes = set unlinked a (record { val = x; next = next_b }) },
        rw (at, ◌>>=◌, e_b, at_b) refl,
        middle_set l.nodes (set unlinked a (record { val = x; next = next_b })) l.head before
            ((b, y) ∷ after) after a x d c
            (λ i n used e.
              get_elem?-set_ne unlinked _
                (ground (arith, distinct_before before ((a, x) ∷ (b, y) ∷ after) i d used))
              ∙ get_elem?-set_ne l.nodes _
                  (ground (arith, distinct_before before ((a, x) ∷ (b, y) ∷ after) i d used))
              ∙ e)
            (
              refl,
              next_b,
              get_elem?-set_self unlinked a _ (
                  omega (
                    arith,
                    length-set l.nodes b (record { val = y; next = none }),
                    get_elem?-lt l.nodes a _ at,
                  )),
              Chain-set unlinked a _ next_b after
                  (ground (arith, distinct_after before ((b, y) ∷ after) a x d))
                  (Chain-set l.nodes b _ next_b after
                    (ground (arith, distinct_after before ((b, y) ∷ after) a x d)) rest),
            ),
      )

  -- Before the head: the first node leaves the list.
  pub erase_before_lem :
      (l : NodeList A) (xs : List (ℕ × A)) (a : ℕ) (x : A)
      → distinct ((a, x) ∷ xs) ≡ true
      → Chain l.nodes l.head ((a, x) ∷ xs)
      → (l' : NodeList A) × (erase_after l (before_begin l) ≡ some (l', before_begin l'))
        × Chain l'.nodes l'.head xs
  unfolding Chain erase_after
  erase_before_lem l xs a x d (e, next, at, rest) = (
    record l { nodes = set l.nodes a (record { val = x; next = none }); head = next },
    rw (e, ◌>>=◌, at) refl,
    Chain-set l.nodes a _ next xs (ground (arith, d)) rest,
  )
