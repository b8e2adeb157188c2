-- ===== src/Fs/Freemap.antt =====
-- The free map after balloc and bfree.
use hyu_ele.Base.{
  ℕ, ◌-◌, ◌/◌, ◌%◌, ◌<◌, ◌≡◌, ◌≢◌, refl, sym, ap, Bool, true, false, Bool-cases, ◌==◌, ==_of_ne,
  ==_iff, if◌then◌else◌, arith, ◌⊎◌, inl, inr, [], ◌∷◌, ◌++◌,
}
use hyu_ele.Base.Run.{ok, panic}
use hyu_ele.Fs.{Fs, bpb, bblock, has_bit, mask, set_byte, bfree}
use hyu_ele.Fs.Bytes.{add_mask, sub_mask}
use hyu_ele.Fs.Bitmap.{in_use, taken}

-- A new value for the byte that holds the bit of block `c`, which differs from the old one in that bit
-- alone, changes the free map at `c` alone.
in_use-set_byte :
    (s : Fs) (c v : ℕ) (x : Bool)
    → ((j : ℕ)
        → j < 8
        → has_bit v j
          ≡ (if j == c % bpb % 8 then x else has_bit (s.data_at (bblock s c) (c % bpb / 8)) j))
    → (e : ℕ)
    → in_use (set_byte (bblock s c) (c % bpb / 8) v s) e ≡ (if e == c then x else in_use s e)
in_use-set_byte s c v x h e = elim (Bool-cases (bblock s e == bblock s c)) [
  | inr p ↦ let apart : (e == c) ≡ false = ground arith in rw (p, apart) refl
  | inl p ↦ elim (Bool-cases (e % bpb / 8 == c % bpb / 8)) [
    | inr q ↦
        let apart : (e == c) ≡ false = ground arith in
        rw (p, q, apart)
          (ap (λ b. has_bit (s.data_at b (e % bpb / 8)) (e % bpb % 8))
            (sym ((==_iff (bblock s e) (bblock s c)).0 p)))
    | inl q ↦
        let same_block = (==_iff (bblock s e) (bblock s c)).0 p in
        let same_byte = (==_iff (e % bpb / 8) (c % bpb / 8)).0 q in
        let same : (e % bpb % 8 == c % bpb % 8) ≡ (e == c) = ground arith in
        rw (p, q, ← same, same_block, same_byte) (h (e % bpb % 8) (omega arith))
  ]
]

-- The blocks of the free map.
abbrev pub Plain : Fs → ℕ → Type 0
Plain s b = (e : ℕ) → e < s.size → b ≢ bblock s e

-- balloc sets the bit of the block it takes, and no other.
pub in_use-taken :
    (s : Fs) (c : ℕ)
    → in_use s c ≡ false
    → Plain s c
    → (e : ℕ) → e < s.size
    → in_use (taken c s) e ≡ (if e == c then true else in_use s e)
in_use-taken s c idle plain e l =
    let other : (bblock s e == c) ≡ false = ==_of_ne (bblock s e) c (λ q. plain e l (sym q)) in
    rw other (
      in_use-set_byte s c _ true
        (add_mask (c % bpb % 8) (omega arith) (s.data_at (bblock s c) (c % bpb / 8)) idle) e)

-- The state after bfree.
abbrev pub freed : ℕ → Fs → Fs
freed b s =
    record (set_byte (bblock s b) (b % bpb / 8)
      (s.data_at (bblock s b) (b % bpb / 8) - mask (b % bpb % 8)) s) {
        logged = s.logged ++ bblock s b ∷ [];
      }

-- bfree of a block in use clears the bit of this block and no other, changes nothing but the free map,
-- and logs the block of the map; bfree of a free block panics.
pub bfree-frees :
    (b : ℕ) (s : Fs)
    → ((in_use s b ≡ true)
        × (bfree b s ≡ ok (tt, freed b s))
        × ((e : ℕ) → in_use (freed b s) e ≡ (if e == b then false else in_use s e))
        × ((d i : ℕ) → d ≢ bblock s b → (freed b s).data_at d i ≡ s.data_at d i))
      ⊎ ((in_use s b ≡ false) × (bfree b s ≡ panic))
unfolding bfree
bfree-frees b s = elim (Bool-cases (in_use s b)) [
  | inl busy ↦ inl (
    busy,
    rw busy refl,
    in_use-set_byte s b _ false
        (sub_mask (b % bpb % 8) (omega arith) (s.data_at (bblock s b) (b % bpb / 8)) busy),
    λ d i n. rw (==_of_ne d (bblock s b) n) refl,
  )
  | inr idle ↦ inr (idle, rw idle refl)
]
