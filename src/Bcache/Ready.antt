-- ===== src/Bcache/Ready.antt =====
-- The buffer cache between two calls.
use mathlib.Core.Path.{subst}
use hyu_ele.Base.{
  ℕ, ◌≤◌, ◌≡◌, ◌≢◌, refl, sym, ap, List, [], ◌∷◌, ◌++◌, All, length, true, false, ◌⊎◌, inl, inr,
}
use hyu_ele.Links.Ring.{IsRing}
use hyu_ele.Bcache.{Buf, Bcache, nbuf}
use hyu_ele.Bcache.Lists.{backwards}

abbrev pub In : ℕ → List ℕ → Type 0
In b [] = ⊥
In b (x ∷ xs) = (b ≡ x) ⊎ In b xs

pub All-In : (P : ℕ → Type 0) (b : ℕ) (xs : List ℕ) → All P xs → In b xs → P b
All-In P b [] a i = elim i [ ]
All-In P b (x ∷ xs) a (inl e) = subst P (sym e) a.0
All-In P b (x ∷ xs) a (inr i) = All-In P b xs a.1 i

pub In-mid : (b : ℕ) (ys zs : List ℕ) → In b (ys ++ b ∷ zs)
In-mid b [] zs = inl refl
In-mid b (y ∷ ys) zs = inr (In-mid b ys zs)

pub In-split : (b : ℕ) (xs : List ℕ) → In b xs → (ys zs : List ℕ) × (xs ≡ ys ++ b ∷ zs)
In-split b [] i = elim i [ ]
In-split b (x ∷ xs) (inl e) = ([], xs, ap (λ v. v ∷ xs) (sym e))
In-split b (x ∷ xs) (inr i) = let (ys, zs, e) = In-split b xs i in (x ∷ ys, zs, ap (λ l. x ∷ l) e)

-- Moving `b` to the front changes no membership.
pub In-to_front : (a b : ℕ) (ys zs : List ℕ) → In a (b ∷ (ys ++ zs)) → In a (ys ++ b ∷ zs)
In-to_front a b [] zs i = i
In-to_front a b (y ∷ ys) zs (inl e) = inr (In-to_front a b ys zs (inl e))
In-to_front a b (y ∷ ys) zs (inr (inl e)) = inl e
In-to_front a b (y ∷ ys) zs (inr (inr i)) = inr (In-to_front a b ys zs (inr i))

pub In-from_front : (a b : ℕ) (ys zs : List ℕ) → In a (ys ++ b ∷ zs) → In a (b ∷ (ys ++ zs))
In-from_front a b [] zs i = i
In-from_front a b (y ∷ ys) zs (inl e) = inr (inl e)
In-from_front a b (y ∷ ys) zs (inr i) = elim (In-from_front a b ys zs i) [
  | inl e ↦ inl e
  | inr j ↦ inr (inr j)
]

In-snoc : (b x : ℕ) (xs : List ℕ) → In b (xs ++ x ∷ []) → (b ≡ x) ⊎ In b xs
In-snoc b x [] i = i
In-snoc b x (y ∷ xs) (inl e) = inr (inl e)
In-snoc b x (y ∷ xs) (inr i) = elim (In-snoc b x xs i) [ inl e ↦ inl e | inr j ↦ inr (inr j) ]

pub In-backwards : (b : ℕ) (xs : List ℕ) → In b (backwards xs) → In b xs
In-backwards b [] i = elim i [ ]
In-backwards b (x ∷ xs) i = elim (In-snoc b x (backwards xs) i) [
  | inl e ↦ inl e
  | inr j ↦ inr (In-backwards b xs j)
]

-- Two buffers that are the same block of a device.
abbrev pub SameBlock : Buf → Buf → Type 0
SameBlock a b = (a.dev ≢ 0) × (a.dev ≡ b.dev) × (a.blockno ≡ b.blockno)

-- The list holds the buffers `xs`, the one released last first; no block has two buffers, and a buffer
-- that is free for another block has nothing that the disk has not. A changed buffer is valid, and a valid
-- one is a block of disk 1.
pub record Ready (s : Bcache) (xs : List ℕ) : Type 0 where
  pub ring : IsRing s.links 0 xs
  pub few : length xs ≤ nbuf
  pub one : (a b : ℕ) → In a xs → In b xs → SameBlock (s.buf a) (s.buf b) → a ≡ b
  pub clean :
      (b : ℕ)
      → In b xs
      → (s.buf b).refcnt ≡ 0
      → (s.buf b).dirty ≡ false
      → (s.buf b).valid ≡ true
      → (s.buf b).bytes ≡ s.memdisk (s.buf b).blockno
  pub kept : (b : ℕ) → In b xs → (s.buf b).dirty ≡ true → (s.buf b).valid ≡ true
  pub real : (b : ℕ) → In b xs → (s.buf b).valid ≡ true → (s.buf b).dev ≡ 1
