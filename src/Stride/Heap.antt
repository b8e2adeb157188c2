-- ===== src/Stride/Heap.antt =====
-- Heaps in an array indexed from 1: the order, the number of times an entry occurs, and what a step
-- of sifting does to both. The hole at `i` is thought of as filled with the entry `p` being placed.
use hyu_ele.Base.{
  ℕ, zero, suc, ◌+◌, ◌-◌, ◌/◌, ◌<◌, ◌≤◌, ◌≡◌, ◌≢◌, refl, sym, ==_iff, ==_of_ne, ◌==◌, if◌then◌else◌,
  update, ℕ_discrete, arith,
}
use native.Mathlib.Numerals.{add-one}
use hyu_ele.Base.Int.{ℤ, ◌≤ℤ◌, ◌<ℤ◌}

abbrev pub Array : Type 0
Array = ℕ → ℕ

-- How often `x` stands in the places 1 to n.
unfoldable pub count : Array → ℕ → ℕ → ℕ
count h zero x = 0
count h (suc n) x = count h n x + (if h (suc n) == x then 1 else 0)

abbrev pub one_if : ℕ → ℕ → ℕ
one_if y x = if y == x then 1 else 0

count-suc : (h : Array) (n x : ℕ) → count h (suc n) x ≡ count h n x + one_if (h (suc n)) x
unfolding count
count-suc h n x = refl

update_self : (h : Array) (i v x : ℕ) → one_if (update h i v i) x ≡ one_if v x
update_self h i v x = rw ((==_iff i i).1 refl)

update_other : (h : Array) (i j v x : ℕ) → j ≢ i → one_if (update h i v j) x ≡ one_if (h j) x
update_other h i j v x ne = rw (==_of_ne j i ne)

pub count-update_out : (h : Array) (n i v x : ℕ) → n < i → count (update h i v) n x ≡ count h n x
unfolding count
count-update_out h zero i v x l = refl
count-update_out h (suc n) i v x l = ground (arith, count-update_out h n i v x)

pub count-update :
    (h : Array) (n i v x : ℕ)
    → 0 < i
    → i ≤ n
    → count (update h i v) n x + one_if (h i) x ≡ count h n x + one_if v x
count-update h zero i v x p l = absurd (omega arith)
count-update h (suc n) i v x p l = elim (ℕ_discrete i (suc n)) [
  | yes e ↦ rw e (
      omega (
        arith,
        count-suc (update h (suc n) v) n x,
        count-suc h n x,
        count-update_out h n (suc n) v x (omega arith),
        update_self h (suc n) v x,
      ))
  | no ne ↦ omega (
    arith,
    count-suc (update h i v) n x,
    count-suc h n x,
    count-update h n i v x p (omega arith),
    update_other h i (suc n) v x (λ e. ne (sym e)),
  )
]

-- Moving the entry of one place into the hole at another, and the hole there.
pub count-shift :
    (g : Array) (n i j p x : ℕ)
    → 0 < i
    → i ≤ n
    → 0 < j
    → j ≤ n
    → i ≢ j
    → count (update (update g i (g j)) j p) n x ≡ count (update g i p) n x
count-shift g n i j p x hi li hj lj ne = ground (
  arith,
  count-update (update g i (g j)) n j p x hj lj,
  count-update g n i (g j) x hi li,
  count-update g n i p x hi li,
)

pub count-grow :
    (h : Array) (n p x : ℕ) → count (update h (n + 1) p) (n + 1) x ≡ count h n x + one_if p x
count-grow h n p x = rw add-one (
    omega (
      arith,
      count-suc (update h (suc n) p) n x,
      count-update_out h n (suc n) p x (omega arith),
      update_self h (suc n) p x,
    ))

pub count-zero : (h : Array) (n x : ℕ) → n ≡ 0 → count h n x ≡ 0
unfolding count
count-zero h zero x e = refl
count-zero h (suc n) x e = absurd (omega arith)

pub count-last : (h : Array) (n x : ℕ) → 0 < n → count h n x ≡ count h (n - 1) x + one_if (h n) x
unfolding count
count-last h zero x l = absurd (omega arith)
count-last h (suc n) x l = let e : suc n - 1 ≡ n = omega arith in rw e

module _ (key : ℕ → ℤ) where
  abbrev pub IsHeap : Array → ℕ → Type 0
  IsHeap h n = (c : ℕ) → 1 < c → c ≤ n → key (h (c / 2)) ≤ℤ key (h c)

  -- Only the edge above `i` may be out of order.
  pub record UpInv (h : Array) (n i : ℕ) : Type 0 where
    pub edges : (c : ℕ) → 1 < c → c ≤ n → c ≢ i → key (h (c / 2)) ≤ℤ key (h c)
    pub bridged : (c : ℕ) → 1 < i → 1 < c → c ≤ n → c / 2 ≡ i → key (h (i / 2)) ≤ℤ key (h c)

  -- Only the edges below `i` may be out of order.
  pub record DownInv (h : Array) (n i : ℕ) : Type 0 where
    pub edges : (c : ℕ) → 1 < c → c ≤ n → c / 2 ≢ i → key (h (c / 2)) ≤ℤ key (h c)
    pub bridged : (c : ℕ) → 1 < i → 1 < c → c ≤ n → c / 2 ≡ i → key (h (i / 2)) ≤ℤ key (h c)

  pub up_step :
      (g : Array) (n i p : ℕ)
      → UpInv (update g i p) n i
      → 1 < i
      → i ≤ n
      → key p <ℤ key (g (i / 2))
      → UpInv (update (update g i (g (i / 2))) (i / 2) p) n (i / 2)
  up_step g n i p v hi li lt = record {
    edges = λ c hc lc ne. ground (arith, v.edges c, v.bridged c, v.edges (i / 2));
    bridged = λ c a b l e. ground (arith, v.edges c, v.edges (i / 2));
  }

  pub up_done :
      (h : Array) (n i : ℕ) → UpInv h n i → (1 < i → key (h (i / 2)) ≤ℤ key (h i)) → IsHeap h n
  up_done h n i v last c hc lc = elim (ℕ_discrete c i) [
    | yes e ↦ rw e (last (omega arith))
    | no ne ↦ v.edges c hc lc ne
  ]

  pub down_step :
      (g : Array) (n i j p : ℕ)
      → DownInv (update g i p) n i
      → 0 < i
      → j / 2 ≡ i
      → 1 < j
      → j ≤ n
      → key (g j) <ℤ key p
      → ((c : ℕ) → 1 < c → c ≤ n → c / 2 ≡ i → key (g j) ≤ℤ key (g c))
      → DownInv (update (update g i (g j)) j p) n j
  down_step g n i j p v hi e hj lj lt low = record {
    edges = λ c hc lc ne. ground (arith, v.edges c, v.bridged c, v.bridged j, low c);
    bridged = λ c a b l q. ground (arith, v.edges c, v.bridged j);
  }

  -- The root of a heap has the least key.
  pub root_least :
      (h : Array) (n : ℕ) → IsHeap h n → (k c : ℕ) → c ≤ k → 0 < c → c ≤ n → key (h 1) ≤ℤ key (h c)
  root_least h n v zero c l hc lc = absurd (omega arith)
  root_least h n v (suc k) c l hc lc = elim (ℕ_discrete c 1) [
    | yes e ↦ rw e (omega arith)
    | no ne ↦ omega (
      arith,
      v c (omega arith) lc,
      root_least h n v k (c / 2) (omega arith) (omega arith) (omega arith),
    )
  ]
