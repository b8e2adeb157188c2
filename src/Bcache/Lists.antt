-- ===== src/Bcache/Lists.antt =====
-- The list of the buffers: binit's and brelse's changes of it, and the list from its end.
use hyu_ele.Base.{
  false, ℕ, zero, suc, ◌+◌, ◌≡◌, ◌≢◌, refl, sym, ◌∙◌, ap, ◌==◌, ==_of_ne, update, arith, List, [],
  ◌∷◌, ◌++◌, NotIn, All, All-mono, All-left, All-right, All-append, length, ◌<◌,
}
use hyu_ele.Links.{
  Links, list_add, list_add_between, list_del, list_del_entry, list_del_between, set_next, set_prev,
}
use hyu_ele.Links.Ring.{Seg, IsRing, Seg-frame, Seg-split, head_or, next-Seg}
use hyu_ele.Links.Laws.{list_add-IsRing}
use hyu_ele.Links.Delete.{list_del-IsRing, Distinct-mid}
use hyu_ele.Bcache.{put_front, to_front, binit_loop}

abbrev Agree : Links → Links → ℕ → Type 0
Agree m m' x = (m'.next x ≡ m.next x) × (m'.prev x ≡ m.prev x)

-- Rings look at the fields of their nodes alone.
IsRing-Agree :
    (m m' : Links) (h : ℕ) (xs : List ℕ)
    → All (Agree m m') (h ∷ xs)
    → IsRing m h xs
    → IsRing m' h xs
IsRing-Agree m m' h xs a r = record {
  linked =
      Seg-frame m m' h h xs r.linked
        (All-mono (Agree m m') (λ x. m'.next x ≡ m.next x) (h ∷ xs) (λ x e. e.0) a)
        (All-mono (Agree m m') (λ x. m'.prev x ≡ m.prev x) xs (λ x e. e.1) a.1) a.0.1;
  distinct = r.distinct;
}

everywhere : (P : ℕ → Type 0) (xs : List ℕ) → ((x : ℕ) → P x) → All P xs
everywhere P [] f = tt
everywhere P (x ∷ xs) f = (f x, everywhere P xs f)

update_swap :
    (f : ℕ → ℕ) (a v b w x : ℕ) → a ≢ b → update (update f a v) b w x ≡ update (update f b w) a v x
update_swap f a v b w x n = ground arith

ne_first : (b : ℕ) (m : Links) (xs : List ℕ) → IsRing m 0 xs → NotIn b (0 ∷ xs) → b ≢ m.next 0
ne_first b m [] r n e = n.0 (e ∙ r.linked.0)
ne_first b m (x ∷ xs) r n e = n.1.0 (e ∙ r.linked.0)

pub put_front-IsRing :
    (b : ℕ) (m : Links) (xs : List ℕ)
    → IsRing m 0 xs
    → NotIn b (0 ∷ xs)
    → IsRing (put_front b m) 0 (b ∷ xs)
unfolding put_front list_add list_add_between set_next set_prev
put_front-IsRing b m xs r n =
    let apart : (0 == b) ≡ false = ==_of_ne 0 b (λ e. n.0 (sym e)) in
    IsRing-Agree (list_add b 0 m) (put_front b m) 0 (b ∷ xs)
      (everywhere (Agree (list_add b 0 m) (put_front b m)) (0 ∷ b ∷ xs)
        (λ x. (refl, rw apart (update_swap m.prev b 0 (m.next 0) b x (ne_first b m xs r n)))))
      (list_add-IsRing b 0 m xs r n)

-- The list without `b`, whose own links stay.
abbrev taken_out : ℕ → Links → Links
taken_out b m = let m1 = set_prev (m.next b) (m.prev b) m in set_next (m1.prev b) (m1.next b) m1

taken_out-Agree :
    (b : ℕ) (m : Links) (x : ℕ) → m.next b ≢ b → x ≢ b → Agree (list_del b m) (taken_out b m) x
unfolding list_del list_del_entry list_del_between set_next set_prev
taken_out-Agree b m x n d =
    let self : (b == m.next b) ≡ false = ==_of_ne b (m.next b) (λ e. n (sym e)) in
    rw (self, ==_of_ne x b d) (refl, refl)

next_ne : (b : ℕ) (m : Links) (ys zs : List ℕ) → IsRing m 0 (ys ++ b ∷ zs) → m.next b ≢ b
next_ne b m ys zs r e =
    let (_, behind) = Seg-split m 0 0 b ys zs r.linked in
    let (before, after, _) = Distinct-mid b (0 ∷ ys) zs r.distinct in
    ne_head zs before.0 after (sym (e) ∙ next-Seg m b 0 zs behind)
  where
    ne_head : (vs : List ℕ) → b ≢ 0 → NotIn b vs → b ≢ head_or vs 0
    ne_head [] u v = u
    ne_head (z ∷ vs) u v = v.0

-- brelse moves the buffer to the front and leaves the order of the others.
pub to_front-IsRing :
    (b : ℕ) (m : Links) (ys zs : List ℕ)
    → IsRing m 0 (ys ++ b ∷ zs)
    → IsRing (to_front b m) 0 (b ∷ (ys ++ zs))
unfolding to_front
to_front-IsRing b m ys zs r =
    let (before, after, _) = Distinct-mid b (0 ∷ ys) zs r.distinct in
    let others = All-append (λ x. b ≢ x) (0 ∷ ys) zs before after in
    let (gone, _, _) = list_del-IsRing b 0 m ys zs r in
    put_front-IsRing b (taken_out b m) (ys ++ zs)
      (IsRing-Agree (list_del b m) (taken_out b m) 0 (ys ++ zs)
        (All-mono (λ x. b ≢ x) (Agree (list_del b m) (taken_out b m)) (0 ∷ (ys ++ zs))
          (λ x d. taken_out-Agree b m x (next_ne b m ys zs r) (λ e. d (sym e))) others)
        gone)
      others

-- The numbers that binit puts in the list, the last one first.
abbrev pub down : ℕ → ℕ → List ℕ → List ℕ
down zero b xs = xs
down (suc n) b xs = down n (b + 1) (b ∷ xs)

pub binit_loop-IsRing :
    (n b : ℕ) (m : Links) (xs : List ℕ)
    → IsRing m 0 xs
    → All (λ x. x < b) (0 ∷ xs)
    → IsRing (binit_loop n b m) 0 (down n b xs)
unfolding binit_loop
binit_loop-IsRing zero b m xs r a = r
binit_loop-IsRing (suc n) b m xs r a =
    binit_loop-IsRing n (b + 1) (put_front b m) (b ∷ xs)
      (put_front-IsRing b m xs r
        (All-mono (λ x. x < b) (λ x. b ≢ x) (0 ∷ xs) (λ x h. omega arith) a))
      (
        omega arith,
        (omega arith, All-mono (λ x. x < b) (λ x. x < b + 1) xs (λ x h. omega arith) a.1),
      )

-- The list from its end: from `b` the `prev` fields lead through `rs` to `a`.
abbrev pub Back : Links → ℕ → List ℕ → ℕ → Type 0
Back m b [] a = m.prev b ≡ a
Back m b (r ∷ rs) a = (m.prev b ≡ r) × Back m r rs a

abbrev pub backwards : List ℕ → List ℕ
backwards [] = []
backwards (x ∷ xs) = backwards xs ++ x ∷ []

Back-snoc :
    (m : Links) (b x a : ℕ) (rs : List ℕ) → Back m b rs x → m.prev x ≡ a → Back m b (rs ++ x ∷ []) a
Back-snoc m b x a [] h e = (h, e)
Back-snoc m b x a (r ∷ rs) h e = (h.0, Back-snoc m r x a rs h.1 e)

pub Seg-Back : (m : Links) (a b : ℕ) (xs : List ℕ) → Seg m a xs b → Back m b (backwards xs) a
Seg-Back m a b [] s = s.1
Seg-Back m a b (x ∷ xs) s = Back-snoc m b x a (backwards xs) (Seg-Back m x b xs s.2) s.1

pub backwards-All : (P : ℕ → Type 0) (xs : List ℕ) → All P xs → All P (backwards xs)
backwards-All P [] a = tt
backwards-All P (x ∷ xs) a = All-append P (backwards xs) (x ∷ []) (backwards-All P xs a.1) (a.0, tt)

pub All-backwards : (P : ℕ → Type 0) (xs : List ℕ) → All P (backwards xs) → All P xs
All-backwards P [] a = tt
All-backwards P (x ∷ xs) a = (
  (All-right P (backwards xs) (x ∷ []) a).0,
  All-backwards P xs (All-left P (backwards xs) (x ∷ []) a),
)

pub length-backwards : (xs : List ℕ) → length (backwards xs) ≡ length xs
length-backwards [] = refl
length-backwards (x ∷ xs) = length-snoc (backwards xs) x ∙ ap suc (length-backwards xs)
  where
    length-snoc : (ys : List ℕ) (y : ℕ) → length (ys ++ y ∷ []) ≡ suc (length ys)
    length-snoc [] y = refl
    length-snoc (z ∷ ys) y = ap suc (length-snoc ys y)
