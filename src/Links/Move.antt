-- ===== src/Links/Move.antt =====
-- list_bulk_move_tail on rings.
use mathlib.Core.List.{append-nil}
use hyu_ele.Base.{
  ℕ, ◌≡◌, ◌≢◌, refl, ◌∙◌, sym, List, [], ◌∷◌, ◌++◌, All, NotIn, Distinct, All-zip, All-left,
  All-right, All-mono, arith,
}
use hyu_ele.Links.{Links, list_bulk_move_tail}
use hyu_ele.Links.Ring.{IsRing, Seg, last_or, Seg-append, prev-Seg}
use hyu_ele.Links.Laws.{ne-last_or}
use hyu_ele.Links.Delete.{Distinct-mid}

All-last {ℓ} : (P : ℕ → Type ℓ) (a : ℕ) (xs : List ℕ) → All P (a ∷ xs) → P (last_or a xs)
All-last P a [] h = h.0
All-last P a (x ∷ xs) h = All-last P x xs h.1

Distinct-apart : (xs ys : List ℕ) → Distinct (xs ++ ys) → All (λ x. NotIn x ys) xs
Distinct-apart [] ys d = tt
Distinct-apart (x ∷ xs) ys d = (All-right (λ z. x ≢ z) xs ys d.0, Distinct-apart xs ys d.1)

apart_symm : (y : ℕ) (xs ys : List ℕ) → All (λ x. NotIn x (y ∷ ys)) xs → NotIn y xs
apart_symm y [] ys h = tt
apart_symm y (x ∷ xs) ys h = (λ e. h.0.0 (sym e), apart_symm y xs ys h.1)

apart-All : (xs ys : List ℕ) → All (λ x. NotIn x ys) xs → All (λ y. NotIn y xs) ys
apart-All xs [] h = tt
apart-All xs (y ∷ ys) h = (apart_symm y xs ys h, apart-All xs ys (All-mono _ _ xs (λ x p. p.1) h))

Distinct-both : (xs ys : List ℕ) → Distinct (xs ++ ys) → Distinct xs × Distinct ys
Distinct-both [] ys d = (tt, d)
Distinct-both (x ∷ xs) ys d =
    let (l, r) = Distinct-both xs ys d.1 in ((All-left (λ z. x ≢ z) xs ys d.0, l), r)

move_nothing : (s d : ℕ) (m : Links) → m.next s ≡ s → list_bulk_move_tail s d m ≡ m
unfolding list_bulk_move_tail
move_nothing s d m h = ground arith

-- A segment whose last node now leads elsewhere.
Seg-retarget :
    (m m' : Links) (a b c : ℕ) (xs : List ℕ)
    → Seg m a xs b
    → m'.next (last_or a xs) ≡ c
    → m'.prev c ≡ last_or a xs
    → Distinct (a ∷ xs)
    → All (λ y. y ≢ last_or a xs → m'.next y ≡ m.next y) (a ∷ xs)
    → All (λ y. m'.prev y ≡ m.prev y) xs
    → Seg m' a xs c
Seg-retarget m m' a b c [] s n p d f g = (n, p)
Seg-retarget m m' a b c (x ∷ xs) s n p d f g =
    (f.0 (ne-last_or a x xs d.0) ∙ s.0, g.0 ∙ s.1, Seg-retarget m m' x b c xs s.2 n p d.1 f.1 g.1)

-- The fields of a store in which the nodes from `x` to `l` moved from `s` to behind `p`.
record Moved (s d p x l : ℕ) (m m' : Links) : Type 0 where
  join_next : m'.next p ≡ x
  join_prev : m'.prev x ≡ p
  close_next : m'.next l ≡ d
  close_prev : m'.prev d ≡ l
  empty_next : m'.next s ≡ s
  empty_prev : m'.prev s ≡ s
  rest_next : (y : ℕ) → y ≢ p → y ≢ l → y ≢ s → m'.next y ≡ m.next y
  rest_prev : (y : ℕ) → y ≢ x → y ≢ d → y ≢ s → m'.prev y ≡ m.prev y

module _ (s d p x l : ℕ) (m : Links) (sp : s ≢ p) (sx : s ≢ x) (sl : s ≢ l) (sd : s ≢ d)
    (pl : p ≢ l) (xd : x ≢ d) (hp : m.prev d ≡ p) (hx : m.next s ≡ x) (hl : m.prev s ≡ l) where
  move-Moved : Moved s d p x l m (list_bulk_move_tail s d m)
  unfolding list_bulk_move_tail
  move-Moved = record {
    join_next = ground arith;
    join_prev = ground arith;
    close_next = ground arith;
    close_prev = ground arith;
    empty_next = ground arith;
    empty_prev = ground arith;
    rest_next = λ y i j k. ground arith;
    rest_prev = λ y i j k. ground arith;
  }

  rejoin :
      (ys xs : List ℕ)
      → p ≡ last_or d ys
      → l ≡ last_or x xs
      → Seg m d ys d
      → Seg m s (x ∷ xs) s
      → Distinct ((d ∷ ys) ++ s ∷ x ∷ xs)
      → Seg (list_bulk_move_tail s d m) d (ys ++ x ∷ xs) d
  rejoin ys xs ep el t u dist =
      let v = move-Moved in
      let apart = Distinct-apart (d ∷ ys) (s ∷ x ∷ xs) dist in
      let apart' = apart-All (d ∷ ys) (s ∷ x ∷ xs) apart in
      let (dl, dr) = Distinct-both (d ∷ ys) (s ∷ x ∷ xs) dist in
      Seg-append _ d d x ys xs
        (Seg-retarget m _ d d x ys t (rw (← ep) v.join_next) (rw (← ep) v.join_prev) dl
          (All-mono _ _ (d ∷ ys)
            (λ y a q. v.rest_next y (rw ep q) (rw el (All-last (λ z. y ≢ z) x xs a.1)) a.0) apart)
          (All-zip _ _ _ ys (λ y a q. v.rest_prev y a.1.0 (λ e. q (sym e)) a.0) apart.1 dl.0))
        (Seg-retarget m _ x s d xs u.2 (rw (← el) v.close_next) (rw (← el) v.close_prev) dr.1
          (All-zip _ _ _ (x ∷ xs)
            (λ y a q o.
              v.rest_next y (rw ep (All-last (λ z. y ≢ z) d ys a)) (rw el o) (λ e. q (sym e)))
            apart'.1 dr.0)
          (All-zip _ (λ y. (x ≢ y) × (s ≢ y)) _ xs
            (λ y a q. v.rest_prev y (λ e. q.0 (sym e)) a.0 (λ e. q.1 (sym e))) apart'.1.1
            (All-zip (λ y. x ≢ y) (λ y. s ≢ y) (λ y. (x ≢ y) × (s ≢ y)) xs (λ y a b. (a, b)) dr.1.0
              dr.0.1)))

ring-Moved :
    (s d : ℕ) (m : Links) (x : ℕ) (xs ys : List ℕ)
    → IsRing m s (x ∷ xs)
    → IsRing m d ys
    → Distinct ((d ∷ ys) ++ s ∷ x ∷ xs)
    → Moved s d (last_or d ys) x (last_or x xs) m (list_bulk_move_tail s d m)
ring-Moved s d m x xs ys r t dist =
    let apart = Distinct-apart (d ∷ ys) (s ∷ x ∷ xs) dist in
    let apart' = apart-All (d ∷ ys) (s ∷ x ∷ xs) apart in
    let out = All-last (λ z. NotIn z (s ∷ x ∷ xs)) d ys apart in
    move-Moved s d (last_or d ys) x (last_or x xs) m (All-last (λ z. s ≢ z) d ys apart'.0)
      r.distinct.0.0 (All-last (λ z. s ≢ z) x xs r.distinct.0) apart'.0.0
      (All-last (λ z. last_or d ys ≢ z) x xs out.1) apart'.1.0.0 (prev-Seg m d d ys t.linked)
      r.linked.0 (prev-Seg m s s (x ∷ xs) r.linked)

-- A node of neither ring keeps its fields.
pub list_bulk_move_tail_rest :
    (s d : ℕ) (m : Links) (xs ys : List ℕ)
    → IsRing m s xs
    → IsRing m d ys
    → Distinct ((d ∷ ys) ++ s ∷ xs)
    → (y : ℕ) → NotIn y ((d ∷ ys) ++ s ∷ xs)
    → ((list_bulk_move_tail s d m).next y ≡ m.next y)
      × ((list_bulk_move_tail s d m).prev y ≡ m.prev y)
list_bulk_move_tail_rest s d m [] ys r t dist y out =
    rw (move_nothing s d m r.linked.0) (refl, refl)
list_bulk_move_tail_rest s d m (x ∷ xs) ys r t dist y out =
    let v = ring-Moved s d m x xs ys r t dist in
    let left = All-left (λ z. y ≢ z) (d ∷ ys) (s ∷ x ∷ xs) out in
    let right = All-right (λ z. y ≢ z) (d ∷ ys) (s ∷ x ∷ xs) out in
    (
      v.rest_next y (All-last (λ z. y ≢ z) d ys left) (All-last (λ z. y ≢ z) x xs right.1) right.0,
      v.rest_prev y right.1.0 left.0 right.0,
    )

-- `list_bulk_move_tail` appends the nodes of `src` to `dst` in order, and leaves `src` empty.
pub list_bulk_move_tail-IsRing :
    (s d : ℕ) (m : Links) (xs ys : List ℕ)
    → IsRing m s xs
    → IsRing m d ys
    → Distinct ((d ∷ ys) ++ s ∷ xs)
    → IsRing (list_bulk_move_tail s d m) s [] × IsRing (list_bulk_move_tail s d m) d (ys ++ xs)
list_bulk_move_tail-IsRing s d m [] ys r t dist =
    rw (move_nothing s d m r.linked.0, append-nil) (r, t)
list_bulk_move_tail-IsRing s d m (x ∷ xs) ys r t dist =
    let apart = Distinct-apart (d ∷ ys) (s ∷ x ∷ xs) dist in
    let apart' = apart-All (d ∷ ys) (s ∷ x ∷ xs) apart in
    let out = All-last (λ z. NotIn z (s ∷ x ∷ xs)) d ys apart in
    let sp : s ≢ last_or d ys = All-last (λ z. s ≢ z) d ys apart'.0 in
    let sl : s ≢ last_or x xs = All-last (λ z. s ≢ z) x xs r.distinct.0 in
    let pl : last_or d ys ≢ last_or x xs = All-last (λ z. last_or d ys ≢ z) x xs out.1 in
    let hp = prev-Seg m d d ys t.linked in
    let hl = prev-Seg m s s (x ∷ xs) r.linked in
    let v =
      move-Moved s d _ x _ m sp r.distinct.0.0 sl apart'.0.0 pl apart'.1.0.0 hp r.linked.0 hl in
    (
      record { linked = (v.empty_next, v.empty_prev); distinct = (tt, tt) },
      record {
        linked =
            rejoin s d _ x _ m sp r.distinct.0.0 sl apart'.0.0 pl apart'.1.0.0 hp r.linked.0 hl ys
              xs refl refl t.linked r.linked dist;
        distinct = (Distinct-mid s (d ∷ ys) (x ∷ xs) dist).2;
      },
    )
