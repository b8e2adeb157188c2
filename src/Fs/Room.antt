-- ===== src/Fs/Room.antt =====
-- How many blocks are left, without counting the map: a list of blocks outside of which none is free.
use hyu_ele.Base.{
  ℕ, ◌+◌, ◌<◌, ◌≤◌, ◌≡◌, refl, sym, ◌∙◌, true, Bool-cases, ◌==◌, ==_iff, if◌then◌else◌, inl, inr,
  List, [], ◌∷◌, ◌++◌, length, length-append, arith, NotIn, All-left, All-right,
}
use hyu_ele.Fs.{Fs}
use hyu_ele.Fs.Bitmap.{in_use, Full}

-- At most `k` blocks are free.
pub record Few (k : ℕ) (s : Fs) : Type 0 where
  pub blocks : List ℕ
  pub few : length blocks ≤ k
  pub others : (c : ℕ) → c < s.size → NotIn c blocks → in_use s c ≡ true

-- From `s` to `t` at most `k` free blocks were taken.
pub record Takes (k : ℕ) (s t : Fs) : Type 0 where
  pub size : t.size ≡ s.size
  pub blocks : List ℕ
  pub few : length blocks ≤ k
  pub others : (c : ℕ) → c < s.size → NotIn c blocks → in_use t c ≡ true → in_use s c ≡ true

pub Full-Few : (s : Fs) → Full s → Few 0 s
Full-Few s full = record { blocks = []; few = omega arith; others = λ c h n. full c h }

pub Few-mono : (j k : ℕ) (s : Fs) → j ≤ k → Few j s → Few k s
Few-mono j k s h f =
    let few = f.few in record { blocks = f.blocks; few = omega arith; others = f.others }

pub Takes-mono : (j k : ℕ) (s t : Fs) → j ≤ k → Takes j s t → Takes k s t
Takes-mono j k s t h f =
    let few = f.few in
    record { size = f.size; blocks = f.blocks; few = omega arith; others = f.others }

pub Takes-trans : (j k : ℕ) (s t u : Fs) → Takes j s t → Takes k t u → Takes (j + k) s u
Takes-trans j k s t u f g =
    let few = f.few in
    let few' = g.few in
    record {
      size = g.size ∙ f.size;
      blocks = f.blocks ++ g.blocks;
      few = omega (arith, length-append f.blocks g.blocks);
      others = λ c h n b.
          f.others c h (All-left _ f.blocks g.blocks n)
            (g.others c (rw f.size h) (All-right _ f.blocks g.blocks n) b);
    }

pub Few-earlier : (j k : ℕ) (s t : Fs) → Takes j s t → Few k t → Few (j + k) s
Few-earlier j k s t f g =
    let few = f.few in
    let few' = g.few in
    record {
      blocks = f.blocks ++ g.blocks;
      few = omega (arith, length-append f.blocks g.blocks);
      others = λ c h n.
          f.others c h (All-left _ f.blocks g.blocks n)
            (g.others c (rw f.size h) (All-right _ f.blocks g.blocks n));
    }

-- The map changed at block `b` at most.
pub Takes-one :
    (s t : Fs) (b : ℕ)
    → t.size ≡ s.size
    → ((c : ℕ) → c < s.size → in_use t c ≡ (if c == b then true else in_use s c))
    → Takes 1 s t
Takes-one s t b size map = record {
  size = size;
  blocks = b ∷ [];
  few = omega arith;
  others = λ c h n busy. elim (Bool-cases (c == b)) [
    | inl e ↦ absurd (n.0 ((==_iff c b).0 e))
    | inr e ↦
        let old = map c h in let at : in_use t c ≡ in_use s c = old ∙ rw e refl in sym at ∙ busy
  ];
}

pub Takes-none :
    (s t : Fs) → t.size ≡ s.size → ((c : ℕ) → c < s.size → in_use t c ≡ in_use s c) → Takes 0 s t
Takes-none s t size map = record {
  size = size;
  blocks = [];
  few = omega arith;
  others = λ c h n busy. sym (map c h) ∙ busy;
}
