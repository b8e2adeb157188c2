-- ===== src/Xem/Queue.antt =====
-- The ring of xem.c holds a bounded first-in first-out queue of at most XEMQSZ - 1 threads.
use hyu_ele.Base.{
  ℕ, zero, suc, ◌+◌, ◌-◌, ◌%◌, ◌<◌, ◌≤◌, ◌≡◌, refl, ap, ◌∙◌, true, false, update, none, some, List,
  [], ◌∷◌, ◌++◌, length, ==_iff, ==_of_ne, arith,
}
use hyu_ele.Base.Int.{ℤ}
use hyu_ele.Xem.{WaitQueue, xemqsz, unused, queue_empty, queue_add, queue_head, queue_remove}

-- The `n` entries from index `h` on, round the array.
unfoldable pub window : (ℕ → ℤ) → ℕ → ℕ → List ℤ
window f h zero = []
window f h (suc n) = f h ∷ window f ((h + 1) % xemqsz) n

abbrev pub size_of : WaitQueue → ℕ
size_of q = (q.rear + xemqsz - q.head) % xemqsz

abbrev pub contents : WaitQueue → List ℤ
contents q = window q.queue q.head (size_of q)

pub record InRange (q : WaitQueue) : Type 0 where
  pub head_in : q.head < xemqsz
  pub rear_in : q.rear < xemqsz

pub length-window : (f : ℕ → ℤ) (h n : ℕ) → length (window f h n) ≡ n
unfolding window
length-window f h zero = refl
length-window f h (suc n) = ap suc (length-window f ((h + 1) % xemqsz) n)

window-update_out :
    (f : ℕ → ℤ) (i : ℕ) (v : ℤ) (h n : ℕ)
    → h < xemqsz
    → i < xemqsz
    → n ≤ (i + xemqsz - h) % xemqsz
    → window (update f i v) h n ≡ window f h n
unfolding window
window-update_out f i v h zero hh hi l = refl
window-update_out f i v h (suc n) hh hi l = rw (
  ==_of_ne h i (omega arith),
  window-update_out f i v ((h + 1) % xemqsz) n (omega arith) hi (omega arith),
)

window-snoc :
    (f : ℕ → ℤ) (h n : ℕ)
    → h < xemqsz
    → window f h (suc n) ≡ window f h n ++ f ((h + n) % xemqsz) ∷ []
unfolding window
window-snoc f h zero hh = let e : (h + 0) % xemqsz ≡ h = omega arith in rw e
window-snoc f h (suc n) hh =
    let e : ((h + 1) % xemqsz + n) % xemqsz ≡ (h + suc n) % xemqsz = omega arith in
    ap (λ r. f h ∷ r) (window-snoc f ((h + 1) % xemqsz) n (omega arith) ∙ rw e)

window-cons : (f : ℕ → ℤ) (h n : ℕ) → f h ∷ window f ((h + 1) % xemqsz) n ≡ window f h (suc n)
unfolding window
window-cons f h n = refl

length-contents : (q : WaitQueue) → length (contents q) ≡ size_of q
length-contents q = length-window q.queue q.head (size_of q)

-- With fewer than XEMQSZ - 1 threads in it the ring takes one more at the end, in the slot `rear`;
-- with XEMQSZ - 1 it takes none, and stays as it is.
pub queue_add-contents :
    (q : WaitQueue) (k : ℤ)
    → InRange q
    → (length (contents q) < xemqsz - 1
        → (q' : WaitQueue) × (queue_add q k ≡ (some q.rear, q'))
          × (q'.queue q.rear ≡ k)
          × (contents q' ≡ contents q ++ k ∷ [])
          × InRange q')
      × (length (contents q) ≡ xemqsz - 1 → queue_add q k ≡ (none, q))
unfolding queue_add
queue_add-contents q k v = (
  λ l.
      let n = size_of q in
      let small : n < 63 = omega (arith, length-contents q) in
      let nxt = (q.rear + 1) % xemqsz in
      let q' : WaitQueue = record q { queue = update q.queue q.rear k; rear = nxt } in
      let grown : size_of q' ≡ suc n = omega (arith, v.head_in, v.rear_in) in
      let slot : (q.head + n) % xemqsz ≡ q.rear = omega (arith, v.head_in, v.rear_in) in
      (
        q',
        ground (arith, v.head_in, v.rear_in, small),
        rw ((==_iff q.rear q.rear).1 refl),
        rw grown (
            window-snoc q'.queue q.head n v.head_in
            ∙ rw (slot, (==_iff q.rear q.rear).1 refl)
                (ap (λ r. r ++ k ∷ [])
                  (window-update_out q.queue q.rear k q.head n v.head_in v.rear_in (omega arith)))),
        record { head_in = v.head_in; rear_in = omega arith },
      ),
  λ l. ground (arith, v.head_in, v.rear_in, length-contents q),
)

-- A ring that holds threads has the first of them at its head, and queue_remove leaves the others.
pub queue_remove-contents :
    (q : WaitQueue) (x : ℤ) (xs : List ℤ)
    → InRange q
    → contents q ≡ x ∷ xs
    → (queue_empty q ≡ false)
      × (queue_head q ≡ x)
      × (contents (queue_remove q) ≡ xs)
      × InRange (queue_remove q)
unfolding queue_remove queue_head queue_empty
queue_remove-contents q x xs v e =
    let n = size_of q - 1 in
    let full : size_of q ≡ suc n = omega (arith, ap length e, length-contents q) in
    let shrunk : size_of (queue_remove q) ≡ n = omega (arith, v.head_in, v.rear_in, full) in
    let cut : q.queue q.head ∷ window q.queue ((q.head + 1) % xemqsz) n ≡ x ∷ xs =
      window-cons q.queue q.head n ∙ (rw full at e) in
    (
      ground (arith, full, v.head_in),
      cc,
      rw shrunk (
          window-update_out q.queue q.head unused ((q.head + 1) % xemqsz) n (omega arith) v.head_in
            (omega (arith, v.head_in, v.rear_in, full))
          ∙ cc),
      record { head_in = omega arith; rear_in = v.rear_in },
    )

pub queue_empty_lem : (q : WaitQueue) → InRange q → contents q ≡ [] → queue_empty q ≡ true
unfolding queue_empty
queue_empty_lem q v e =
    let none_in : size_of q ≡ 0 = omega (arith, ap length e, length-contents q) in
    ground (arith, none_in, v.head_in, v.rear_in)
