-- ===== src/Life/Boot.antt =====
-- pinit: the process table at the start.
use mathlib.Core.List.{append-nil, append_assoc}
use hyu_ele.Base.{
  dec_lt, ℕ, zero, suc, ◌+◌, ◌<◌, ◌≤◌, ◌≡◌, refl, sym, ◌∙◌, ap, List, [], ◌∷◌, ◌++◌, map, length,
  All, NotIn, All-mono, All-append, arith, update,
}
use hyu_ele.Base.Int.{pos}
use hyu_ele.Base.Run.{ok}
use hyu_ele.Links.{Links, list_head_init, list_add_tail}
use hyu_ele.Links.Ring.{IsRing}
use hyu_ele.Links.Laws.{list_add_tail-IsRing, list_head_init-IsRing}
use hyu_ele.Ptable.{
  sleep_head, run_head, Ptable, nproc_max, qsize, free_node, free_head, queue_head,
}
use hyu_ele.Life.{pinit, pinit_queues, pinit_free}
use hyu_ele.Life.Alloc.{FreeList}

-- The `n` entries from `p` on.
unfoldable pub entries : ℕ → ℕ → List ℕ
entries zero p = []
entries (suc n) p = p ∷ entries n (p + 1)

length-entries : (n p : ℕ) → length (entries n p) ≡ n
unfolding entries
length-entries zero p = refl
length-entries (suc n) p = ap suc (length-entries n (p + 1))

free_node-NotIn :
    (p : ℕ) (ps : List ℕ) → All (λ q. q < p) ps → NotIn (free_node p) (map free_node ps)
free_node-NotIn p [] a = tt
free_node-NotIn p (q ∷ ps) a = (let b = a.0 in omega arith, free_node-NotIn p ps a.1)

map-append : (f : ℕ → ℕ) (xs ys : List ℕ) → map f (xs ++ ys) ≡ map f xs ++ map f ys
map-append f [] ys = refl
map-append f (x ∷ xs) ys = ap (λ r. f x ∷ r) (map-append f xs ys)

pinit_free-IsRing :
    (n p : ℕ) (t : Ptable) (ps : List ℕ)
    → IsRing t.links free_head (map free_node ps)
    → All (λ q. q < p) ps
    → (m : Links) × (pinit_free n p t ≡ ok (tt, record t { links = m }))
      × IsRing m free_head (map free_node (ps ++ entries n p))
unfolding pinit_free entries
pinit_free-IsRing zero p t ps r a = (t.links, refl, rw (append-nil ps) r)
pinit_free-IsRing (suc n) p t ps r a =
    let m1 = list_add_tail (free_node p) free_head t.links in
    let r1 =
      list_add_tail-IsRing (free_node p) free_head t.links (map free_node ps) r
        (omega arith, free_node-NotIn p ps a) in
    let whole : map free_node (ps ++ p ∷ []) ≡ map free_node ps ++ free_node p ∷ [] =
      map-append free_node ps (p ∷ []) in
    let (m, run, ring) =
      pinit_free-IsRing n (p + 1) (record t { links = m1 }) (ps ++ p ∷ []) (rw whole r1)
        (All-append _ ps (p ∷ []) (All-mono (λ q. q < p) (λ q. q < p + 1) ps (λ q h. omega arith) a)
          (omega arith, tt)) in
    (m, run, rw (sym (append_assoc ps (p ∷ []) (entries n (p + 1)))) ring)

pinit_queues-pins :
    (n l : ℕ) (t : Ptable)
    → (m : Links) × (pin' : ℕ → ℕ) × (pinit_queues n l t
        ≡ ok (tt, record t { links = m; pin = pin' }))
      × ((k : ℕ) → l ≤ k → k < l + n → pin' k ≡ queue_head k)
      × ((k : ℕ) → k < l → pin' k ≡ t.pin k)
unfolding pinit_queues
pinit_queues-pins zero l t = (t.links, t.pin, refl, λ k a b. absurd (omega arith), λ k a. refl)
pinit_queues-pins (suc n) l t =
    let (m, pin', run, set, kept) = pinit_queues-pins n (l + 1) (record t {
      links = list_head_init (queue_head l) t.links;
      pin = update t.pin l (queue_head l);
    }) in
    (
      m,
      pin',
      run,
      λ k a b. elim (dec_lt l k) [
        | yes h ↦ set k (omega arith) (omega arith)
        | no h ↦ kept k (omega arith) ∙ ground arith
      ],
      λ k a. kept k (omega arith) ∙ ground arith,
    )

-- pinit ends on any table. It puts all NPROC entries on the free list, in the order of the table, so
-- that a count of NPROC is right, sets each pin to the head of its queue, and gives MLFQ all tickets.
pub pinit-FreeList :
    (t : Ptable)
    → t.nproc ≡ pos nproc_max
    → (t' : Ptable) × (pinit t ≡ ok (tt, t'))
      × FreeList t' (entries nproc_max 1)
      × ((l : ℕ) → l < qsize → t'.pin l ≡ queue_head l)
      × (t'.mlfq_tickets ≡ pos 100)
unfolding pinit
pinit-FreeList t e =
    let (m, pin', first, set, _) = pinit_queues-pins qsize 0 t in
    let m1 = list_head_init sleep_head (list_head_init run_head m) in
    let started = record t { links = list_head_init free_head m1; pin = pin' } in
    let (m2, then_, ring) =
      pinit_free-IsRing nproc_max 1 started [] (list_head_init-IsRing free_head m1) tt in
    (
      record t { links = m2; pin = pin'; mlfq_tickets = pos 100 },
      rw (first, then_) refl,
      record { ring = ring; counted = e ∙ ap pos (sym (length-entries nproc_max 1)) },
      λ l h. set l (omega arith) (omega arith),
      refl,
    )
