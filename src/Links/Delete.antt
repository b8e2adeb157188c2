-- ===== src/Links/Delete.antt =====
-- list_del and list_bulk_move_tail on rings.

use hyu_ele.Base.{
  ℕ, ◌≡◌, ◌≢◌, sym, List, [], ◌∷◌, ◌++◌, NotIn, Distinct, All-left, All-right, All-append,
}
use hyu_ele.Links.{Links, list_del}
use hyu_ele.Links.Ring.{IsRing, head_or, last_or, Seg-split, next-Seg, prev-Seg}
use hyu_ele.Links.Laws.{ne-last_or, list_del-Removed, Seg-remove}

-- What distinctness says of a node in the middle of a list.
pub Distinct-mid :
    (e : ℕ) (xs ys : List ℕ)
    → Distinct (xs ++ e ∷ ys)
    → NotIn e xs × NotIn e ys × Distinct (xs ++ ys)
Distinct-mid e [] ys d = (tt, d.0, d.1)
Distinct-mid e (x ∷ xs) ys d =
    let (nx, ny, rest) = Distinct-mid e xs ys d.1 in
    let at = All-right (λ z. x ≢ z) xs (e ∷ ys) d.0 in
    ((λ q. at.0 (sym q), nx), ny, (All-append _ xs ys (All-left _ xs (e ∷ ys) d.0) at.1, rest))

-- `list_del` takes the node out of the ring, and clears its two fields.
pub list_del-IsRing :
    (e h : ℕ) (m : Links) (xs ys : List ℕ)
    → IsRing m h (xs ++ e ∷ ys)
    → IsRing (list_del e m) h (xs ++ ys) × ((list_del e m).next e ≡ 0) × ((list_del e m).prev e ≡ 0)
list_del-IsRing e h m xs ys r =
    let (before, behind) = Seg-split m h h e xs ys r.linked in
    let (ex, ey, rest) = Distinct-mid e (h ∷ xs) ys r.distinct in
    let gone =
      list_del-Removed e (last_or h xs) (head_or ys h) m (prev-Seg m h e xs before)
        (next-Seg m e h ys behind) (ne-last_or e h xs ex) (ne_head ys ex.0 ey) in
    (
      record {
        linked = Seg-remove e h m _ h xs ys gone ex.0 r.distinct rest.0 r.linked;
        distinct = rest;
      },
      gone.gone_next,
      gone.gone_prev,
    )
  where
    ne_head : (zs : List ℕ) → e ≢ h → NotIn e zs → e ≢ head_or zs h
    ne_head [] u v = u
    ne_head (z ∷ zs) u v = v.0
