-- ===== src/Links/Ring.antt =====
-- What a ring of list_head nodes holds: the nodes met from the head, in order.
use hyu_ele.Base.{ℕ, ◌≡◌, ◌∙◌, List, [], ◌∷◌, ◌++◌, All, Distinct, arith}
use hyu_ele.Links.{Links}

-- From `a` the `next` fields lead through `xs` to `b`, and the `prev` fields lead back.
abbrev pub Seg : Links → ℕ → List ℕ → ℕ → Type 0
Seg m a [] b = (m.next a ≡ b) × (m.prev b ≡ a)
Seg m a (x ∷ xs) b = (m.next a ≡ x) × (m.prev x ≡ a) × Seg m x xs b

-- The ring of head `h` holds the nodes `xs`.
pub record IsRing (m : Links) (h : ℕ) (xs : List ℕ) : Type 0 where
  pub linked : Seg m h xs h
  pub distinct : Distinct (h ∷ xs)

-- The first node behind `a`, or `b`; the last node from `a`.
abbrev pub head_or : List ℕ → ℕ → ℕ
head_or [] b = b
head_or (x ∷ _) b = x

abbrev pub last_or : ℕ → List ℕ → ℕ
last_or a [] = a
last_or a (x ∷ xs) = last_or x xs

pub next-Seg : (m : Links) (a b : ℕ) (xs : List ℕ) → Seg m a xs b → m.next a ≡ head_or xs b
next-Seg m a b [] s = s.0
next-Seg m a b (x ∷ xs) s = s.0

pub prev-Seg : (m : Links) (a b : ℕ) (xs : List ℕ) → Seg m a xs b → m.prev b ≡ last_or a xs
prev-Seg m a b [] s = s.1
prev-Seg m a b (x ∷ xs) s = prev-Seg m x b xs s.2

-- A segment looks at `next` of `a` and `xs`, and at `prev` of `xs` and `b`.
pub Seg-frame :
    (m m' : Links) (a b : ℕ) (xs : List ℕ)
    → Seg m a xs b
    → All (λ x. m'.next x ≡ m.next x) (a ∷ xs)
    → All (λ x. m'.prev x ≡ m.prev x) xs
    → m'.prev b ≡ m.prev b
    → Seg m' a xs b
Seg-frame m m' a b [] s n p q = ground arith
Seg-frame m m' a b (x ∷ xs) s n p q = (n.0 ∙ s.0, p.0 ∙ s.1, Seg-frame m m' x b xs s.2 n.1 p.1 q)

pub Seg-append :
    (m : Links) (a b x : ℕ) (xs ys : List ℕ)
    → Seg m a xs x
    → Seg m x ys b
    → Seg m a (xs ++ x ∷ ys) b
Seg-append m a b x [] ys s t = (s.0, s.1, t)
Seg-append m a b x (y ∷ xs) ys s t = (s.0, s.1, Seg-append m y b x xs ys s.2 t)

pub Seg-split :
    (m : Links) (a b x : ℕ) (xs ys : List ℕ)
    → Seg m a (xs ++ x ∷ ys) b
    → Seg m a xs x × Seg m x ys b
Seg-split m a b x [] ys s = ((s.0, s.1), s.2)
Seg-split m a b x (y ∷ xs) ys s = let (l, r) = Seg-split m y b x xs ys s.2 in ((s.0, s.1, l), r)
