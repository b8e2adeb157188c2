-- ===== src/Pipe/Fifo.antt =====
-- pipewrite and piperead, and any sequence of them, as operations on a queue of bytes.
use mathlib.Core.List.{append-nil, append_assoc}
use hyu_ele.Base.{
  length-append, ℕ, zero, suc, ◌+◌, ◌%◌, ◌<◌, ◌≤◌, ◌≡◌, refl, sym, ◌∙◌, ap, List, [], ◌∷◌, ◌++◌,
  length, arith, Bool, true, false, not, ◌||◌, ◌&&◌, if◌then◌else◌, Bool-cases, ◌⊎◌, inl, inr,
  ==_iff, ◌==◌, min,
}
use hyu_ele.Base.Int.{pos, negsuc}
use hyu_ele.Pipe.{
  Pipe, Progress, returns, sleeps, readers, writers, wakeup, pipesize, uint_range, put_byte,
  write_loop, pipewrite, read_loop, piperead,
}
use hyu_ele.Pipe.Window.{
  pending, InRange, waiting, put_byte-pending, take_byte, take_byte-pending, length-pending,
  pending_nothing,
}

-- How a call that had the bytes `cs` left ends: all are in the pipe and it returns `n`, or the pipe is
-- full and it gives up or sleeps on the rest.
pub data Ends (killed : Bool) (n : ℕ) (p : Pipe) : List ℕ → Progress → Type 0 where
  complete : Ends killed n p [] (returns (pos n))
  refused :
      {c : ℕ} {cs : List ℕ}
      → waiting p ≡ pipesize
      → (not p.readopen || killed) ≡ true
      → Ends killed n p (c ∷ cs) (returns (negsuc 0))
  blocked :
      {c : ℕ} {cs : List ℕ}
      → waiting p ≡ pipesize
      → (not p.readopen || killed) ≡ false
      → Ends killed n p (c ∷ cs) (sleeps (c ∷ cs))

write_loop-appends :
    (killed : Bool) (n : ℕ) (cs : List ℕ) (p : Pipe)
    → InRange p
    → (sent rest : List ℕ) × (o : Progress) × (p' : Pipe) × (write_loop killed n cs p ≡ (o, p'))
      × (cs ≡ sent ++ rest)
      × (pending p' ≡ pending p ++ sent)
      × InRange p'
      × Ends killed n p' rest o
unfolding write_loop
write_loop-appends killed n [] p i = (
  [],
  [],
  returns (pos n),
  wakeup readers p,
  refl,
  refl,
  sym (append-nil (pending p)),
  i,
  complete,
)
write_loop-appends killed n (c ∷ cs) p i =
    elim (Bool-cases (p.nwrite == (p.nread + pipesize) % uint_range)) [
      | inl e ↦
          let full : waiting p ≡ pipesize =
            omega (arith, (==_iff p.nwrite ((p.nread + pipesize) % uint_range)).0 e) in
          elim (Bool-cases (not p.readopen || killed)) [
            | inl b ↦ (
              [],
              c ∷ cs,
              returns (negsuc 0),
              p,
              rw (e, b) refl,
              refl,
              sym (append-nil (pending p)),
              i,
              refused full b,
            )
            | inr b ↦ (
              [],
              c ∷ cs,
              sleeps (c ∷ cs),
              wakeup readers p,
              rw (e, b) refl,
              refl,
              sym (append-nil (pending p)),
              i,
              blocked full b,
            )
          ]
      | inr e ↦
          let room : waiting p < pipesize = ground arith in
          let (held, i') = put_byte-pending c p i room in
          let (sent, rest, o, p', run, split, now, i'', end) =
            write_loop-appends killed n cs (put_byte c p) i' in
          (
            c ∷ sent,
            rest,
            o,
            p',
            rw e run,
            ap (λ r. c ∷ r) split,
            now ∙ ap (λ r. r ++ sent) held ∙ append_assoc (pending p) (c ∷ []) sent,
            i'',
            end,
          )
    ]

-- pipewrite puts a first part of its bytes behind those that wait, in order, and keeps the pipe within
-- its size. It returns their number when all of them are in. Otherwise the pipe is full, and the call
-- sleeps on the rest, or returns -1 if nobody can read or the process is killed.
pub pipewrite-appends :
    (killed : Bool) (bytes : List ℕ) (p : Pipe)
    → InRange p
    → (sent rest : List ℕ) × (o : Progress) × (p' : Pipe) × (pipewrite killed bytes p ≡ (o, p'))
      × (bytes ≡ sent ++ rest)
      × (pending p' ≡ pending p ++ sent)
      × InRange p'
      × Ends killed (length bytes) p' rest o
unfolding pipewrite
pipewrite-appends killed bytes p i = write_loop-appends killed (length bytes) bytes p i

read_loop-takes :
    (n : ℕ) (p : Pipe)
    → InRange p
    → (cs : List ℕ) × (p' : Pipe) × (read_loop n p ≡ (cs, p'))
      × (pending p ≡ cs ++ pending p')
      × (length cs ≡ min n (waiting p))
      × InRange p'
unfolding read_loop
read_loop-takes zero p i = ([], p, refl, refl, omega arith, i)
read_loop-takes (suc k) p i = elim (Bool-cases (p.nread == p.nwrite)) [
  | inl e ↦ ([], p, rw e refl, refl, ground arith, i)
  | inr e ↦
      let (held, i', one) = take_byte-pending p i (ground arith) in
      let (cs, p', run, split, len, i'') = read_loop-takes k (take_byte p) i' in
      (
        p.data_at (p.nread % pipesize) ∷ cs,
        p',
        rw (e, run) refl,
        held ∙ ap (λ r. p.data_at (p.nread % pipesize) ∷ r) split,
        omega (arith, len),
        i'',
      )
]

empty_open :
    (p : Pipe)
    → InRange p
    → (p.nread == p.nwrite && p.writeopen) ≡ true
    → (pending p ≡ []) × (p.writeopen ≡ true)
empty_open p i e = elim (Bool-cases (p.nread == p.nwrite)) [
  | inl h ↦ (pending_nothing p i ((==_iff p.nread p.nwrite).0 h), ground arith)
  | inr h ↦ absurd (ground arith)
]

-- piperead of an open, empty pipe takes nothing: it sleeps, or returns -1 in a killed process. Otherwise
-- it takes the first bytes that wait, as many as were asked for or as there are, and returns their
-- number.
pub piperead-takes :
    (killed : Bool) (n : ℕ) (p : Pipe)
    → InRange p
    → (o : Progress) × (cs : List ℕ) × (p' : Pipe) × (piperead killed n p ≡ (o, cs, p'))
      × (pending p ≡ cs ++ pending p')
      × InRange p'
      × (((pending p ≡ [])
            × (p.writeopen ≡ true)
            × (cs ≡ [])
            × (o ≡ (if killed then returns (negsuc 0) else sleeps [])))
          ⊎ ((o ≡ returns (pos (length cs))) × (length cs ≡ min n (length (pending p)))))
unfolding piperead
piperead-takes killed n p i =
    let (cs, q, run, split, len, i') = read_loop-takes n p i in
    elim (Bool-cases (p.nread == p.nwrite && p.writeopen)) [
      | inl e ↦
          let (none, is_open) = empty_open p i e in
          elim (Bool-cases killed) [
            | inl b ↦ (
              returns (negsuc 0),
              [],
              p,
              rw (e, b) refl,
              refl,
              i,
              inl (none, is_open, refl, rw b refl),
            )
            | inr b ↦
                (sleeps [], [], p, rw (e, b) refl, refl, i, inl (none, is_open, refl, rw b refl))
          ]
      | inr e ↦ (
        returns (pos (length cs)),
        cs,
        wakeup writers q,
        rw (e, run) refl,
        split,
        i',
        inr (refl, omega (arith, len, length-pending p)),
      )
    ]

too_long :
    (p : Pipe) (bytes sent : List ℕ) (c : ℕ) (cs : List ℕ)
    → waiting p ≡ pipesize
    → bytes ≡ sent ++ c ∷ cs
    → pending p ≡ sent
    → pipesize < length bytes
too_long p bytes sent c cs f s h =
    omega (arith, f, ap length s, length-append sent (c ∷ cs), ap length h, length-pending p)

write-completes :
    {killed : Bool} {n : ℕ} {p : Pipe} {rest : List ℕ} {o : Progress} (bytes sent : List ℕ)
    → Ends killed n p rest o
    → bytes ≡ sent ++ rest
    → length bytes ≤ pipesize
    → pending p ≡ sent
    → (o ≡ returns (pos n)) × (bytes ≡ sent)
write-completes bytes sent complete s l h = (refl, s ∙ append-nil sent)
write-completes {p = p} bytes sent (refused {c} {cs} f b) s l h =
    let far = too_long p bytes sent c cs f s h in absurd (omega arith)
write-completes {p = p} bytes sent (blocked {c} {cs} f b) s l h =
    let far = too_long p bytes sent c cs f s h in absurd (omega arith)

takes-all :
    {x : ℕ} {xs : List ℕ} (ys zs : List ℕ)
    → x ∷ xs ≡ ys ++ zs
    → length ys ≡ suc (length xs)
    → (ys ≡ x ∷ xs) × (zs ≡ [])
takes-all {x} {xs} ys [] e l = (sym (e ∙ append-nil ys), refl)
takes-all {x} {xs} ys (z ∷ zs) e l =
    absurd (omega (arith, ap length e, length-append ys (z ∷ zs), l))

-- Bytes that fit into an empty pipe come out as they went in: pipewrite of at least one and at most
-- PIPESIZE bytes in a live process returns their number, and a piperead of at least as many then
-- returns their number and exactly these bytes, and leaves the pipe empty.
pub piperead-pipewrite :
    (x : ℕ) (xs : List ℕ) (n : ℕ) (p : Pipe)
    → InRange p
    → pending p ≡ []
    → length (x ∷ xs) ≤ pipesize
    → length (x ∷ xs) ≤ n
    → (p' p'' : Pipe) × (pipewrite false (x ∷ xs) p ≡ (returns (pos (length (x ∷ xs))), p'))
      × (piperead false n p' ≡ (returns (pos (length (x ∷ xs))), x ∷ xs, p''))
      × (pending p'' ≡ [])
piperead-pipewrite x xs n p i e l m =
    let (sent, rest, o, p', put, split, now, i', end) = pipewrite-appends false (x ∷ xs) p i in
    let held : pending p' ≡ sent = now ∙ ap (λ r. r ++ sent) e in
    let (oe, all) = write-completes (x ∷ xs) sent end split l held in
    let full : pending p' ≡ x ∷ xs = held ∙ sym all in
    let (o', cs, p'', got, parts, i'', how) = piperead-takes false n p' i' in
    elim how [
      | inl (none, _, _, _) ↦ absurd (omega (arith, ap length (sym full ∙ none)))
      | inr (oe', len) ↦
          let (same, left) =
            takes-all cs (pending p'') (sym full ∙ parts) (omega (arith, len, ap length full, m)) in
          (p', p'', put ∙ ap (λ r. (r, p')) oe, got ∙ rw (oe', same) refl, left)
    ]
