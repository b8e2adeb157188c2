-- ===== src/Life/Alloc.antt =====
-- The free list of the process table and its count, through allocproc and freeproc.

use hyu_ele.Base.{
  ==_of_ne, suc, ◌≤◌, All-mono, ==_iff, update, ℕ, ◌≡◌, refl, sym, ◌∙◌, true, false, List, [], ◌∷◌,
  length, map, arith, NotIn,
}
use hyu_ele.Base.Int.{ℤ, pos, negsuc, ◌+ℤ◌}
use hyu_ele.Base.Run.{ok}
use hyu_ele.Links.{Links, list_empty, list_head_init, list_add, list_del}
use hyu_ele.Links.Ring.{IsRing, Seg-frame}
use hyu_ele.Links.Laws.{list_add-IsRing}
use hyu_ele.Links.Delete.{list_del-IsRing}
use hyu_ele.Ptable.{
  list_entry, nproc_max, Ptable, free_node, free_head, children_node, unused, embryo,
}
use hyu_ele.Life.{allocproc, take_free, give_back, freeproc, cleared}

-- The free list holds the entries `ps`, and `nproc` is their number.
pub record FreeList (t : Ptable) (ps : List ℕ) : Type 0 where
  pub ring : IsRing t.links free_head (map free_node ps)
  pub counted : t.nproc ≡ pos (length ps)

count_up : (n : ℕ) (z : ℤ) → z ≡ pos n → z +ℤ pos 1 ≡ pos (suc n)
unfolding ◌+ℤ◌
count_up n z e = rw e (ground arith)

count_down : (n : ℕ) (z : ℤ) → z ≡ pos (suc n) → z +ℤ negsuc 0 ≡ pos n
unfolding ◌+ℤ◌
count_down n z e = rw e (ground arith)

-- The list head inside an entry is no node of the free list.
children-NotIn : (p : ℕ) (ps : List ℕ) → NotIn (children_node p) (map free_node ps)
children-NotIn p [] = tt
children-NotIn p (q ∷ ps) = (omega arith, children-NotIn p ps)

list_head_init-apart :
    (e h : ℕ) (m : Links) (xs : List ℕ)
    → IsRing m h xs
    → NotIn e (h ∷ xs)
    → IsRing (list_head_init e m) h xs
unfolding list_head_init
list_head_init-apart e h m xs r n = record {
  linked =
      Seg-frame m _ h h xs r.linked (All-mono _ _ (h ∷ xs) (λ x q. ground arith) n)
        (All-mono _ _ xs (λ x q. ground arith) n.1) (let q = n.0 in ground arith);
  distinct = r.distinct;
}

-- freeproc of an entry that is not free puts it at the front of the free list, counts it, and clears it.
pub freeproc-FreeList :
    (p : ℕ) (ps : List ℕ) (t : Ptable)
    → FreeList t ps
    → NotIn (free_node p) (free_head ∷ map free_node ps)
    → (t' : Ptable) × (freeproc p t ≡ ok (tt, t'))
      × FreeList t' (p ∷ ps)
      × (t'.proc p ≡ cleared (t.proc p))
unfolding freeproc
freeproc-FreeList p ps t f n = (
  _,
  refl,
  record {
    ring = list_add-IsRing (free_node p) free_head t.links (map free_node ps) f.ring n;
    counted = count_up (length ps) t.nproc f.counted;
  },
  rw ((==_iff p p).1 refl) refl,
)

module _ (p : ℕ) (ps : List ℕ) (t : Ptable) (f : FreeList t (p ∷ ps))
    (in_table : p ≤ nproc_max) where
  taken-IsRing :
      IsRing
        (list_head_init (children_node p) (list_del (free_node p) t.links))
        free_head
        (map free_node ps)
  taken-IsRing =
      list_head_init-apart (children_node p) free_head _ (map free_node ps)
        (list_del-IsRing (free_node p) free_head t.links [] (map free_node ps) f.ring).0
        (omega arith, children-NotIn p ps)

  at_front : list_empty free_head t.links ≡ false
  at_front =
      let first : t.links.next free_head ≡ free_node p = f.ring.linked.0 in
      let apart = f.ring.distinct.0.0 in
      ==_of_ne (t.links.next free_head) free_head (λ q. apart (sym q ∙ first))

  first_entry : list_entry (t.links.next free_head) ≡ p
  first_entry = let first : t.links.next free_head ≡ free_node p = f.ring.linked.0 in omega arith

  abbrev taken : Ptable
  taken = record t {
    proc = update t.proc p (record (t.proc p) { state = embryo });
    nproc = t.nproc +ℤ negsuc 0;
    links = list_head_init (children_node p) (list_del (free_node p) t.links);
  }

  taken-FreeList : FreeList taken ps
  taken-FreeList = record {
    ring = taken-IsRing;
    counted = count_down (length ps) t.nproc f.counted;
  }

  abbrev returned : Ptable
  returned = record taken {
    proc = update taken.proc p (record (taken.proc p) { state = unused });
    nproc = taken.nproc +ℤ pos 1;
    links = list_add (free_node p) free_head taken.links;
  }

  returned-FreeList : FreeList returned (p ∷ ps)
  returned-FreeList = record {
    ring =
        list_add-IsRing (free_node p) free_head taken.links (map free_node ps) taken-IsRing
          (λ q. f.ring.distinct.0.0 (sym q), f.ring.distinct.1.0);
    counted = count_up (length ps) taken.nproc taken-FreeList.counted;
  }

  -- Where the free list begins with `p`, allocproc takes `p` off the list and the count, and returns it
  -- as EMBRYO; if there is no page for its kernel stack, it returns null, and the free list, the count
  -- and the state of `p` are as they were for a free entry.
  pub allocproc-FreeList :
      ((t' : Ptable) × (allocproc true t ≡ ok (p, t'))
        × FreeList t' ps
        × ((t'.proc p).state ≡ embryo))
      × ((t' : Ptable) × (allocproc false t ≡ ok (0, t'))
          × FreeList t' (p ∷ ps)
          × ((t'.proc p).state ≡ unused))
  unfolding allocproc take_free give_back
  allocproc-FreeList = (
    (taken, rw (at_front, first_entry) refl, taken-FreeList, rw ((==_iff p p).1 refl) refl),
    (returned, rw (at_front, first_entry) refl, returned-FreeList, rw ((==_iff p p).1 refl) refl),
  )
