-- ===== src/Links/Laws.antt =====
-- The operations of list.h on rings: insertion, removal and the move of a whole ring.
use hyu_ele.Base.{
  ℕ, ◌≡◌, ◌≢◌, refl, ◌∙◌, sym, List, [], ◌∷◌, ◌++◌, All, NotIn, Distinct, All-left, All-right,
  All-append, arith, true, ◌↔◌,
}
use mathlib.Core.List.{append-nil, append_assoc}
use hyu_ele.Links.{
  Links, list_head_init, list_add_between, list_add, list_add_tail, list_add_after, list_del,
  list_empty,
}
use hyu_ele.Links.Ring.{IsRing, Seg, head_or, last_or, Seg-frame, Seg-split, next-Seg, prev-Seg}

pub ne-last_or : (c a : ℕ) (xs : List ℕ) → NotIn c (a ∷ xs) → c ≢ last_or a xs
ne-last_or c a [] h = h.0
ne-last_or c a (x ∷ xs) h = ne-last_or c x xs h.1

-- Two functions that differ at `u` and `v` alone agree on a list without these.
pub All-agree :
    (f g : ℕ → ℕ) (u v : ℕ) (xs : List ℕ)
    → ((x : ℕ) → x ≢ u → x ≢ v → f x ≡ g x)
    → NotIn u xs
    → NotIn v xs
    → All (λ x. f x ≡ g x) xs
All-agree f g u v [] h p q = tt
All-agree f g u v (x ∷ xs) h p q =
    (h x (λ e. p.0 (sym e)) (λ e. q.0 (sym e)), All-agree f g u v xs h p.1 q.1)

-- The fields of a store in which `new` was put between `p` and `n`.
record Inserted (new p n : ℕ) (m m' : Links) : Type 0 where
  at_p : m'.next p ≡ new
  at_new : m'.prev new ≡ p
  from_new : m'.next new ≡ n
  from_n : m'.prev n ≡ new
  else_next : (x : ℕ) → x ≢ p → x ≢ new → m'.next x ≡ m.next x
  else_prev : (x : ℕ) → x ≢ n → x ≢ new → m'.prev x ≡ m.prev x

add_between-Inserted :
    (new p n : ℕ) (m : Links) → new ≢ p → new ≢ n → Inserted new p n m (list_add_between new p n m)
unfolding list_add_between
add_between-Inserted new p n m h k = record {
  at_p = ground arith;
  at_new = ground arith;
  from_new = ground arith;
  from_n = ground arith;
  else_next = λ x i j. ground arith;
  else_prev = λ x i j. ground arith;
}

Seg-insert :
    (new b : ℕ) (m m' : Links) (a : ℕ) (xs ys : List ℕ)
    → Inserted new (last_or a xs) (head_or ys b) m m'
    → new ≢ b
    → NotIn new (a ∷ xs ++ ys)
    → Distinct (a ∷ xs ++ ys)
    → NotIn b (xs ++ ys)
    → Seg m a (xs ++ ys) b
    → Seg m' a (xs ++ new ∷ ys) b
Seg-insert new b m m' a [] [] i nb nn d t s = (i.at_p, i.at_new, (i.from_new, i.from_n))
Seg-insert new b m m' a [] (y ∷ ys) i nb nn d t s = (
  i.at_p,
  i.at_new,
  (
    i.from_new,
    i.from_n,
    Seg-frame m m' y b ys s.2 (All-agree m'.next m.next a new (y ∷ ys) i.else_next d.0 nn.1)
        (All-agree m'.prev m.prev y new ys i.else_prev d.1.0 nn.1.1)
        (i.else_prev b t.0 (λ e. nb (sym e))),
  ),
)
Seg-insert new b m m' a (x ∷ xs) ys i nb nn d t s = (
  i.else_next a (ne-last_or a x xs (All-left _ (x ∷ xs) ys d.0)) (λ e. nn.0 (sym e)) ∙ s.0,
  i.else_prev x (ne_head ys d.1.0) (λ e. nn.1.0 (sym e)) ∙ s.1,
  Seg-insert new b m m' x xs ys i nb nn.1 d.1 t.1 s.2,
)
  where
    ne_head : (zs : List ℕ) → NotIn x (xs ++ zs) → x ≢ head_or zs b
    ne_head [] u = λ e. t.0 (sym e)
    ne_head (z ∷ zs) u = (All-right _ xs (z ∷ zs) u).0

Distinct-insert :
    (new : ℕ) (xs ys : List ℕ)
    → NotIn new (xs ++ ys)
    → Distinct (xs ++ ys)
    → Distinct (xs ++ new ∷ ys)
Distinct-insert new [] ys n d = (n, d)
Distinct-insert new (x ∷ xs) ys n d = (
  All-append _ xs (new ∷ ys) (All-left _ xs ys d.0) (λ e. n.0 (sym e), All-right _ xs ys d.0),
  Distinct-insert new xs ys n.1 d.1,
)

-- Putting a fresh node between two neighbours of a ring puts it there in the ring's contents.
IsRing-insert :
    (new h : ℕ) (m : Links) (xs ys : List ℕ)
    → IsRing m h (xs ++ ys)
    → NotIn new (h ∷ xs ++ ys)
    → IsRing (list_add_between new (last_or h xs) (head_or ys h) m) h (xs ++ new ∷ ys)
IsRing-insert new h m xs ys r n = record {
  linked =
      Seg-insert new h m _ h xs ys
        (add_between-Inserted new _ _ m (ne-last_or new h xs (n.0, All-left _ xs ys n.1))
          (ne_head ys n.1))
        n.0 n r.distinct r.distinct.0 r.linked;
  distinct = Distinct-insert new (h ∷ xs) ys n r.distinct;
}
  where
    ne_head : (zs : List ℕ) → NotIn new (xs ++ zs) → new ≢ head_or zs h
    ne_head [] u = n.0
    ne_head (z ∷ zs) u = (All-right _ xs (z ∷ zs) u).0

last_or-snoc : (a x : ℕ) (xs : List ℕ) → last_or a (xs ++ x ∷ []) ≡ x
last_or-snoc a x [] = refl
last_or-snoc a x (y ∷ xs) = last_or-snoc y x xs

last_or-append : (a x : ℕ) (xs ys : List ℕ) → last_or a (xs ++ x ∷ ys) ≡ last_or x ys
last_or-append a x [] ys = refl
last_or-append a x (y ∷ xs) ys = last_or-append y x xs ys

-- `list_add` puts a fresh node at the front of the ring.
pub list_add-IsRing :
    (new h : ℕ) (m : Links) (xs : List ℕ)
    → IsRing m h xs
    → NotIn new (h ∷ xs)
    → IsRing (list_add new h m) h (new ∷ xs)
unfolding list_add
list_add-IsRing new h m xs r n = rw (next-Seg m h h xs r.linked) (IsRing-insert new h m [] xs r n)

-- `list_add_tail` puts a fresh node at the back of the ring.
pub list_add_tail-IsRing :
    (new h : ℕ) (m : Links) (xs : List ℕ)
    → IsRing m h xs
    → NotIn new (h ∷ xs)
    → IsRing (list_add_tail new h m) h (xs ++ new ∷ [])
unfolding list_add_tail
list_add_tail-IsRing new h m xs r n =
    rw (prev-Seg m h h xs r.linked)
      (IsRing-insert new h m xs [] (rw append-nil r) (rw append-nil n))

-- `list_add_after` puts a fresh node right behind a node of the ring.
pub list_add_after-IsRing :
    (new node h : ℕ) (m : Links) (xs ys : List ℕ)
    → IsRing m h (xs ++ node ∷ ys)
    → NotIn new (h ∷ xs ++ node ∷ ys)
    → IsRing (list_add_after new node m) h (xs ++ node ∷ new ∷ ys)
unfolding list_add_after
list_add_after-IsRing new node h m xs ys r n =
    let whole : (xs ++ node ∷ []) ++ ys ≡ xs ++ node ∷ ys = append_assoc xs (node ∷ []) ys in
    let placed = IsRing-insert new h m (xs ++ node ∷ []) ys (rw whole r) (rw whole n) in
    let behind : m.next node ≡ head_or ys h =
      next-Seg m node h ys (Seg-split m h h node xs ys r.linked).1 in
    rw behind (rw (last_or-snoc h node xs, append_assoc xs (node ∷ []) (new ∷ ys)) at placed)

-- `list_empty` tells whether the ring holds a node.
pub list_empty_iff :
    (h : ℕ) (m : Links) (xs : List ℕ) → IsRing m h xs → (list_empty h m ≡ true) ↔ (xs ≡ [])
list_empty_iff h m [] r = (λ e. refl, λ e. ground (arith, r.linked.0))
list_empty_iff h m (x ∷ xs) r = (λ e. absurd (r.distinct.0.0 (ground (arith, r.linked.0))), λ e. cc)

-- `list_head_init` makes an empty ring of a node.
pub list_head_init-IsRing : (h : ℕ) (m : Links) → IsRing (list_head_init h m) h []
unfolding list_head_init
list_head_init-IsRing h m = record { linked = (ground arith, ground arith); distinct = (tt, tt) }

-- The fields of a store from which the node `e` between `p` and `n` was taken.
pub record Removed (e p n : ℕ) (m m' : Links) : Type 0 where
  pub over_next : m'.next p ≡ n
  pub over_prev : m'.prev n ≡ p
  pub gone_next : m'.next e ≡ 0
  pub gone_prev : m'.prev e ≡ 0
  pub rest_next : (x : ℕ) → x ≢ p → x ≢ e → m'.next x ≡ m.next x
  pub rest_prev : (x : ℕ) → x ≢ n → x ≢ e → m'.prev x ≡ m.prev x

pub list_del-Removed :
    (e p n : ℕ) (m : Links)
    → m.prev e ≡ p
    → m.next e ≡ n
    → e ≢ p
    → e ≢ n
    → Removed e p n m (list_del e m)
unfolding list_del
list_del-Removed e p n m hp hn np nn = record {
  over_next = ground arith;
  over_prev = ground arith;
  gone_next = ground arith;
  gone_prev = ground arith;
  rest_next = λ x i j. ground arith;
  rest_prev = λ x i j. ground arith;
}

pub Seg-remove :
    (e b : ℕ) (m m' : Links) (a : ℕ) (xs ys : List ℕ)
    → Removed e (last_or a xs) (head_or ys b) m m'
    → e ≢ b
    → Distinct (a ∷ xs ++ e ∷ ys)
    → NotIn b (xs ++ ys)
    → Seg m a (xs ++ e ∷ ys) b
    → Seg m' a (xs ++ ys) b
Seg-remove e b m m' a [] [] r nb d t s = (r.over_next, r.over_prev)
Seg-remove e b m m' a [] (y ∷ ys) r nb d t s = (
  r.over_next,
  r.over_prev,
  Seg-frame m m' y b ys s.2.2 (All-agree m'.next m.next a e (y ∷ ys) r.rest_next d.0.1 d.1.0)
      (All-agree m'.prev m.prev y e ys r.rest_prev d.1.1.0 d.1.0.1)
      (r.rest_prev b t.0 (λ q. nb (sym q))),
)
Seg-remove e b m m' a (x ∷ xs) ys r nb d t s =
    let e_xs = All-right (λ z. x ≢ z) xs (e ∷ ys) d.1.0 in
    (
      r.rest_next a (ne-last_or a x xs (All-left _ (x ∷ xs) (e ∷ ys) d.0))
            (All-right (λ z. a ≢ z) (x ∷ xs) (e ∷ ys) d.0).0
          ∙ s.0,
      r.rest_prev x (ne_head ys e_xs.1) e_xs.0 ∙ s.1,
      Seg-remove e b m m' x xs ys r nb d.1 t.1 s.2,
    )
  where
    ne_head : (zs : List ℕ) → NotIn x zs → x ≢ head_or zs b
    ne_head [] u = λ q. t.0 (sym q)
    ne_head (z ∷ zs) u = u.0
