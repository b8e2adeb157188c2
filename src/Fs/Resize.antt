-- ===== src/Fs/Resize.antt =====
-- The end of writei: the new size of a file, and its inode written to the disk.
use mathlib.Core.Path.{subst}
use hyu_ele.Base.{
  ℕ, ◌*◌, ◌/◌, ◌%◌, ◌<◌, ◌≤◌, ◌≡◌, ◌≢◌, refl, sym, ◌∙◌, ap, true, Bool-cases, ◌==◌, ==_iff,
  ==_of_ne, ltb, ltb_of_lt, ltb_of_le, if◌then◌else◌, update, arith, ◌⊎◌, inl, inr, dec_lt, ◌++◌,
  ◌∷◌, [], some,
}
use hyu_ele.Base.Run.{ok}
use hyu_ele.Fs.{Fs, Inode, bsize}
use hyu_ele.Fs.Unique.{Fine}
use hyu_ele.Fs.Route.{value-Reaches}
use hyu_ele.Fs.Steady.{Only, Leaf, value-on, Fine-on, Reaches-back, Owned-on}
use hyu_ele.Fs.Bmap.{route_of, route_of-EndsAt, tree_size, block_of}
use hyu_ele.Fs.Content.{file_byte, byte_in}
use hyu_ele.Fs.Moves.{Spare, Leaf-Spare}
use hyu_ele.Fs.File.{ipb, iblock, put_dinode, iupdate, grow_file}

-- The size of inode `q` became `size`; no byte of a file changed.
pub record Resized (s s' : Fs) (q size : ℕ) : Type 0 where
  pub fine : Fine s'
  pub bytes : (p k : ℕ) → k / bsize < tree_size → file_byte s' p k ≡ file_byte s p k
  pub blocks : (p n : ℕ) → n < tree_size → block_of s' p n ≡ block_of s p n
  pub resized : (s'.inode q).size ≡ size
  pub other_sizes : (p : ℕ) → p ≢ q → (s'.inode p).size ≡ (s.inode p).size
  pub type : (s'.inode q).type ≡ (s.inode q).type
  pub spare : Spare s' (iblock s' (s'.inode q).inum)

module _ (s : Fs) (q size : ℕ) (good : Fine s) (spare : Spare s (iblock s (s.inode q).inum)) where
  abbrev sized : Inode
  sized = record (s.inode q) { size = size }

  abbrev blk : ℕ
  blk = iblock s (s.inode q).inum

  abbrev saved : Fs
  saved = record s {
    inode = update s.inode q sized;
    data_at = update s.data_at blk (put_dinode sized ((s.inode q).inum % ipb * 16) (s.data_at blk));
    logged = s.logged ++ blk ∷ [];
  }

  saved_at : saved.inode q ≡ sized
  saved_at = rw ((==_iff q q).1 refl) refl

  saved_other : (p : ℕ) → p ≢ q → saved.inode p ≡ s.inode p
  saved_other p n = rw (==_of_ne p q n) refl

  saved_addrs : (p k : ℕ) → (saved.inode p).addrs k ≡ (s.inode p).addrs k
  saved_addrs p k = elim (Bool-cases (p == q)) [
    | inr e ↦ rw e refl
    | inl e ↦ rw e (ap (λ m. (s.inode m).addrs k) (sym ((==_iff p q).0 e)))
  ]

  saved-Only : Only s saved blk
  saved-Only = record {
    size = refl;
    start = refl;
    addrs = saved_addrs;
    others = λ b n. rw (==_of_ne b blk n) refl;
  }

  leaf : Leaf s blk
  leaf = Leaf-Spare s blk spare

  saved_blocks : (p n : ℕ) → n < tree_size → block_of saved p n ≡ block_of s p n
  saved_blocks p n h = value-on s saved blk saved-Only leaf p (route_of n) 0 (route_of-EndsAt n h)

  in_block : (b j : ℕ) → (b ≢ 0 → b ≢ blk) → byte_in saved b j ≡ byte_in s b j
  in_block b j apart = elim (Bool-cases (b == 0)) [
    | inl z ↦ rw z refl
    | inr n ↦
        let other = apart (λ z. let t = (==_iff b 0).1 z in cc (t, n)) in
        rw (n, ==_of_ne b blk other) refl
  ]

  saved_bytes : (p k : ℕ) → k / bsize < tree_size → file_byte saved p k ≡ file_byte s p k
  saved_bytes p k h =
      ap (λ b. byte_in saved b (k % bsize)) (saved_blocks p (k / bsize) h)
      ∙ in_block (block_of s p (k / bsize)) (k % bsize) (λ n.
        spare.no_file p 0 (block_of s p (k / bsize))
          (value-Reaches s p (route_of (k / bsize)) 0 (route_of-EndsAt (k / bsize) h) n))

  saved-Spare : Spare saved blk
  saved-Spare = record {
    owned = Owned-on s saved blk saved-Only leaf blk spare.owned;
    no_file = λ p l b r. spare.no_file p l b (Reaches-back s saved blk saved-Only leaf p l b r);
  }

  pub saved-Resized : Resized s saved q size
  saved-Resized =
      let disk = spare.owned.on_disk in
      record {
        fine = Fine-on s saved blk saved-Only leaf (omega arith) good;
        bytes = saved_bytes;
        blocks = saved_blocks;
        resized = ap (λ i. i.size) saved_at;
        other_sizes = λ p n. ap (λ i. i.size) (saved_other p n);
        type = ap (λ i. i.type) saved_at;
        spare = subst (λ i. Spare saved (iblock saved i.inum)) (sym saved_at) saved-Spare;
      }

same-Resized :
    (s : Fs) (q : ℕ) → Fine s → Spare s (iblock s (s.inode q).inum) → Resized s s q (s.inode q).size
same-Resized s q good spare = record {
  fine = good;
  bytes = λ p k h. refl;
  blocks = λ p n h. refl;
  resized = refl;
  other_sizes = λ p n. refl;
  type = refl;
  spare = spare;
}

-- The size becomes the greater of the old one and the end of the bytes that were written.
pub grow_file-Resized :
    (q off n : ℕ) (s : Fs)
    → Fine s
    → Spare s (iblock s (s.inode q).inum)
    → off ≤ (s.inode q).size ⊎ 0 < n
    → (s' : Fs) × (grow_file q off n s ≡ ok (some n, s'))
      × Resized s s' q (if ltb (s.inode q).size off then off else (s.inode q).size)
unfolding grow_file iupdate
grow_file-Resized q off n s good spare some_bytes = elim (dec_lt (s.inode q).size off) [
  | no h ↦
      let small = ltb_of_le (s.inode q).size off (omega arith) in
      (
        s,
        elim (dec_lt 0 n) [
          | yes i ↦ rw (ltb_of_lt 0 n i, small) refl
          | no i ↦ rw (ltb_of_le 0 n (omega arith)) refl
        ],
        rw small (same-Resized s q good spare),
      )
  | yes h ↦
      let larger = ltb_of_lt (s.inode q).size off h in
      let some_written : ltb 0 n ≡ true =
        ltb_of_lt 0 n (elim some_bytes [ inl a ↦ absurd (omega arith) | inr b ↦ b ]) in
      (
        saved s q off good spare,
        rw (some_written, larger, (==_iff q q).1 refl) refl,
        rw larger (saved-Resized s q off good spare),
      )
]
