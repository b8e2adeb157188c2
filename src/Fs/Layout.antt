-- ===== src/Fs/Layout.antt =====
-- The bytes of an inode on the disk: what put_dinode writes, get_dinode reads.
use hyu_ele.Base.{
  ℕ, zero, suc, ◌+◌, ◌*◌, ◌<◌, ◌≤◌, ◌≡◌, refl, ◌∙◌, ltb_of_lt, arith, ◌⊎◌, inl, dec_lt,
}
use hyu_ele.Fs.{Inode, word_of, put_word}
use hyu_ele.Fs.Bytes.{word_of-put_word, word_of-put_word_other}
use hyu_ele.Fs.File.{Buffer, put_half, put_addrs, put_dinode}
use hyu_ele.Fs.Dinode.{half_of, get_dinode}

-- The fields that the disk keeps.
pub record SameFields (i j : Inode) : Type 0 where
  pub type : i.type ≡ j.type
  pub major : i.major ≡ j.major
  pub minor : i.minor ≡ j.minor
  pub nlink : i.nlink ≡ j.nlink
  pub size : i.size ≡ j.size
  pub addrs : (k : ℕ) → k < 13 → i.addrs k ≡ j.addrs k

-- Each field fits its place.
pub record InRange (i : Inode) : Type 0 where
  pub type : i.type < 65536
  pub major : i.major < 65536
  pub minor : i.minor < 65536
  pub nlink : i.nlink < 65536
  pub size : i.size < 4294967296
  pub addrs : (k : ℕ) → k < 13 → i.addrs k < 4294967296

half_same : (d : Buffer) (a v : ℕ) → v < 65536 → half_of (put_half d a v) a ≡ v
half_same d a v h = ground arith

put_half_other : (d : Buffer) (a v j : ℕ) → j < a ⊎ a + 2 ≤ j → put_half d a v j ≡ d j
put_half_other d a v j h = ground arith

put_word_other : (d : Buffer) (w v j : ℕ) → j < w * 4 ⊎ w * 4 + 4 ≤ j → put_word d w v j ≡ d j
put_word_other d w v j h = ground arith

put_addrs_other :
    (n : ℕ) (addrs : ℕ → ℕ) (w : ℕ) (d : Buffer) (j : ℕ)
    → j < w * 4 ⊎ (w + n) * 4 ≤ j
    → put_addrs n addrs w d j ≡ d j
put_addrs_other zero addrs w d j h = refl
put_addrs_other (suc n) addrs w d j h =
    put_word_other (put_addrs n addrs w d) (w + n) (addrs n) j (ground arith)
    ∙ put_addrs_other n addrs w d j (ground arith)

put_addrs_at :
    (n : ℕ) (addrs : ℕ → ℕ) (w : ℕ) (d : Buffer) (k : ℕ)
    → k < n
    → ((i : ℕ) → i < n → addrs i < 4294967296)
    → word_of (put_addrs n addrs w d) (w + k) ≡ addrs k
put_addrs_at zero addrs w d k h small = absurd (omega arith)
put_addrs_at (suc n) addrs w d k h small = elim (dec_lt k n) [
  | yes l ↦
      word_of-put_word_other (put_addrs n addrs w d) (w + n) (addrs n) (w + k) (λ e. omega arith)
      ∙ put_addrs_at n addrs w d k l (λ i a. small i (omega arith))
  | no l ↦
      let at : k ≡ n = omega arith in
      rw at (word_of-put_word (put_addrs n addrs w d) (w + n) (addrs n) (small n (omega arith)))
]

-- The bytes outside of an inode stay.
pub put_dinode_other :
    (i : Inode) (w : ℕ) (d : Buffer) (j : ℕ) → j < w * 4 ⊎ w * 4 + 64 ≤ j → put_dinode i w d j ≡ d j
unfolding put_dinode
put_dinode_other i w d j h =
    let d1 = put_half d (w * 4) i.type in
    let d2 = put_half d1 (w * 4 + 2) i.major in
    let d3 = put_half d2 (w * 4 + 4) i.minor in
    let d4 = put_half d3 (w * 4 + 6) i.nlink in
    put_addrs_other 13 i.addrs (w + 3) (put_word d4 (w + 2) i.size) j (ground arith)
    ∙ put_word_other d4 (w + 2) i.size j (ground arith)
    ∙ put_half_other d3 (w * 4 + 6) i.nlink j (ground arith)
    ∙ put_half_other d2 (w * 4 + 4) i.minor j (ground arith)
    ∙ put_half_other d1 (w * 4 + 2) i.major j (ground arith)
    ∙ put_half_other d (w * 4) i.type j (ground arith)

half_on : (d e : Buffer) (a : ℕ) → d a ≡ e a → d (a + 1) ≡ e (a + 1) → half_of d a ≡ half_of e a
half_on d e a h k = rw (h, k) refl

module _ (i : Inode) (w : ℕ) (d : Buffer) (small : InRange i) where
  abbrev d1 : Buffer
  d1 = put_half d (w * 4) i.type

  abbrev d2 : Buffer
  d2 = put_half d1 (w * 4 + 2) i.major

  abbrev d3 : Buffer
  d3 = put_half d2 (w * 4 + 4) i.minor

  abbrev d4 : Buffer
  d4 = put_half d3 (w * 4 + 6) i.nlink

  -- The shorts stand in front of the words.
  low_byte : (j : ℕ) → j < w * 4 + 8 → put_dinode i w d j ≡ d4 j
  unfolding put_dinode
  low_byte j h =
      put_addrs_other 13 i.addrs (w + 3) (put_word d4 (w + 2) i.size) j (inl (omega arith))
      ∙ put_word_other d4 (w + 2) i.size j (inl (omega arith))

  low_half : (a : ℕ) → a + 2 ≤ w * 4 + 8 → half_of (put_dinode i w d) a ≡ half_of d4 a
  low_half a h =
      half_on (put_dinode i w d) d4 a (low_byte a (omega arith)) (low_byte (a + 1) (omega arith))

  over : (e : Buffer) (a v b : ℕ) → b + 2 ≤ a → half_of (put_half e a v) b ≡ half_of e b
  over e a v b h =
      half_on (put_half e a v) e b (put_half_other e a v b (inl (omega arith)))
        (put_half_other e a v (b + 1) (inl (omega arith)))

  size_word : word_of (put_dinode i w d) (w + 2) ≡ i.size
  unfolding put_dinode
  size_word =
      let e = put_word d4 (w + 2) i.size in
      let f = put_addrs 13 i.addrs (w + 3) e in
      let at : (j : ℕ) → j < 4 → f ((w + 2) * 4 + j) ≡ e ((w + 2) * 4 + j) =
        λ j h. put_addrs_other 13 i.addrs (w + 3) e ((w + 2) * 4 + j) (inl (omega arith)) in
      let first : f ((w + 2) * 4) ≡ e ((w + 2) * 4) =
        put_addrs_other 13 i.addrs (w + 3) e ((w + 2) * 4) (inl (omega arith)) in
      let same : word_of f (w + 2) ≡ word_of e (w + 2) =
        rw (first, at 1 (omega arith), at 2 (omega arith), at 3 (omega arith)) refl in
      same ∙ word_of-put_word d4 (w + 2) i.size small.size

  addr_word : (k : ℕ) → k < 13 → word_of (put_dinode i w d) (w + 3 + k) ≡ i.addrs k
  unfolding put_dinode
  addr_word k h = put_addrs_at 13 i.addrs (w + 3) (put_word d4 (w + 2) i.size) k h small.addrs

  -- An inode that is written is read back.
  pub get-put_dinode : (j : Inode) → SameFields (get_dinode j w (put_dinode i w d)) i
  unfolding get_dinode
  get-put_dinode j = record {
    type =
        low_half (w * 4) (omega arith)
        ∙ over d3 (w * 4 + 6) i.nlink (w * 4) (omega arith)
        ∙ over d2 (w * 4 + 4) i.minor (w * 4) (omega arith)
        ∙ over d1 (w * 4 + 2) i.major (w * 4) (omega arith)
        ∙ half_same d (w * 4) i.type small.type;
    major =
        low_half (w * 4 + 2) (omega arith)
        ∙ over d3 (w * 4 + 6) i.nlink (w * 4 + 2) (omega arith)
        ∙ over d2 (w * 4 + 4) i.minor (w * 4 + 2) (omega arith)
        ∙ half_same d1 (w * 4 + 2) i.major small.major;
    minor =
        low_half (w * 4 + 4) (omega arith)
        ∙ over d3 (w * 4 + 6) i.nlink (w * 4 + 4) (omega arith)
        ∙ half_same d2 (w * 4 + 4) i.minor small.minor;
    nlink = low_half (w * 4 + 6) (omega arith) ∙ half_same d3 (w * 4 + 6) i.nlink small.nlink;
    size = size_word;
    addrs = λ k h. rw (ltb_of_lt k 13 h) (addr_word k h);
  }
