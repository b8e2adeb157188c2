-- ===== src/Log/Atomic.antt =====
-- A commit that a crash cuts short, and the recovery after it: all of the transaction or none.
use hyu_ele.Base.{
  ℕ, ◌+◌, ◌<◌, ◌≡◌, ◌⊎◌, refl, sym, ap, ◌∙◌, List, [], ◌∷◌, ◌++◌, inl, inr, arith, ℕ_discrete,
}
use mathlib.Core.List.{append-nil}
use hyu_ele.Log.{install_loop}
use hyu_ele.Log.{
  Log, LogHeader, Write, head, perform, install_trans, write_log, write_head, copy_header, commit,
  forget,
}
use hyu_ele.Log.Replay.{replay, replay-append, log_writes, home_writes, Begins, Begins-append}
use hyu_ele.Log.Copy.{Apart, Kept, Logged, write_log_loop-Logged, install_loop-Installed}
use hyu_ele.Log.Recover.{
  recovered, Outside, AllNew, AllOld, recovered-empty, read_block, recovered_by, replay-PutsAt,
  Begins-All, log_writes-InLog, home_writes-AtHome, append-cancel, regroup, commit_runs,
  nil_of_append, tail_of, replay-home, PutsAt, InLog, AtHome,
}

-- The states of a commit of a transaction of `s.lh.n` blocks, with the writes between them.
module _ (s : Log) (apart : Apart s.start s.lh.n s.lh.block) where
  abbrev to_log : List Write
  to_log = log_writes s.lh.n 0 s.start s.lh.block s.view

  abbrev to_home : List Write
  to_home = home_writes s.lh.n 0 s.lh.block (λ t. s.view (s.lh.block t))

  abbrev full_head : LogHeader
  full_head = copy_header s.lh s.dev.header

  logged :
      Kept s (write_log s)
      × Logged s.view s.lh.n (write_log s)
      × ((b : ℕ) → Outside s b → (write_log s).dev.block b ≡ s.dev.block b)
      × ((write_log s).dev ≡ replay to_log s.dev)
      × ((write_log s).trace ≡ s.trace ++ to_log)
  unfolding write_log
  logged =
      write_log_loop-Logged s.view s.lh.n s.lh.n 0 s (omega arith) apart (λ t lt. refl)
        (record { on_disk = λ t lt. absurd (omega arith); in_view = λ t lt. absurd (omega arith) })

  -- Recovery once the header is written and some of the home blocks are.
  after_head :
      (vs : List Write)
      → Begins vs to_home
      → AllNew s (recovered s (replay vs (perform (head full_head) (replay to_log s.dev)))).block
  after_head vs b =
      let (kept, done, rest, dev, trace) = logged in
      let d1 = perform (head full_head) (replay to_log s.dev) in
      let puts = Begins-All (PutsAt (AtHome s.lh.block s.lh.n)) vs to_home b (
        home_writes-AtHome s.lh.n 0 s.lh.n s.lh.block (λ t. s.view (s.lh.block t)) (omega arith)) in
      let (same, spared) = replay-PutsAt (AtHome s.lh.block s.lh.n) vs d1 puts in
      let at = read_block s.lh s.dev.header in
      let (new, old) =
        recovered_by s.view s (replay vs d1) full_head same
          (λ t u lt lu. rw (at t lt) (apart t u lt lu))
          (λ t lt. rw (at t lt) (
            spared (s.start + t + 1) (λ e h q. apart h.0 t h.1 lt (sym (q ∙ h.2)))
            ∙ rw (← dev) (rw (kept.lh, kept.start) at (done.on_disk t lt)))) in
      record {
        written = λ t lt. rw (at t lt) at (new t lt);
        others = λ c out away.
            old c (λ t lt. rw (at t lt) (away t lt))
            ∙ spared c (λ e h q. away h.0 h.1 (q ∙ h.2))
            ∙ rw (← dev) (rest c out);
      }

  -- Recovery while the header still says that the log is empty.
  before_head :
      s.dev.header.n ≡ 0
      → (us : List Write) → Begins us to_log
      → AllOld s (recovered s (replay us s.dev)).block
  before_head clean us b c out =
      let puts =
        Begins-All (PutsAt (InLog s.start s.lh.n)) us to_log b
          (log_writes-InLog s.lh.n 0 s.lh.n s.start s.lh.block s.view (omega arith)) in
      let (same, spared) = replay-PutsAt (InLog s.start s.lh.n) us s.dev puts in
      let empty : (replay us s.dev).header.n ≡ 0 = ap (λ (x : LogHeader). x.n) same ∙ clean in
      ap (λ (f : ℕ → ℕ). f c) (recovered-empty s (replay us s.dev) empty)
      ∙ spared c (λ e h q. out h.0 h.1 (q ∙ h.2))

  on_head :
      s.dev.header.n ≡ 0
      → (us vs : List Write) → us ≡ to_log ++ vs
      → Begins vs (head full_head ∷ to_home)
      → AllOld s (recovered s (replay us s.dev)).block
        ⊎ AllNew s (recovered s (replay us s.dev)).block
  on_head clean us [] q b =
      inl (before_head clean us ([], sym (append-nil us ∙ q ∙ append-nil to_log)))
  on_head clean us (v ∷ vs) q (rest, e) =
      let first : v ≡ head full_head = cc e in
      let later : Begins vs to_home = (rest, cc e) in
      inr (rw (q, first, replay-append to_log (head full_head ∷ vs) s.dev) (after_head vs later))

  commit-trace :
      0 < s.lh.n
      → (h : LogHeader) × (h.n ≡ 0)
        × ((commit s).trace ≡ s.trace ++ (to_log ++ ((head full_head ∷ to_home) ++ head h ∷ [])))
  unfolding commit write_head install_trans
  commit-trace pos =
      let (kept, done, rest, dev, trace) = logged in
      let s1 = write_log s in
      let s2 = write_head s1 in
      let (kept3, done3, rest3, dev3, trace3) =
        install_loop-Installed s.view s1.lh.n s1.lh.n 0 s2 (omega arith)
          (rw (kept.lh, kept.start) apart) (λ t lt. done.in_view t (rw kept.lh at lt))
          (λ t lt. absurd (omega arith)) in
      let h =
        copy_header (forget (install_loop s1.lh.n 0 s2)).lh
          (install_loop s1.lh.n 0 s2).dev.header in
      let before : (install_loop s1.lh.n 0 s2).trace
          ≡ ((s.trace ++ to_log) ++ head full_head ∷ []) ++ to_home =
        trace3 ∙ rw (kept.lh, kept.header, trace) in
      (
        h,
        refl,
        rw (commit_runs s pos) (
            ap (λ r. r ++ head h ∷ []) before
            ∙ regroup s.trace to_log (head full_head) to_home (head h ∷ [])),
      )

  -- Every home block is written.
  all_home : AllNew s (replay to_home (perform (head full_head) (replay to_log s.dev))).block
  all_home =
      let (kept, done, rest, dev, trace) = logged in
      let d1 = perform (head full_head) (replay to_log s.dev) in
      let puts =
        home_writes-AtHome s.lh.n 0 s.lh.n s.lh.block (λ t. s.view (s.lh.block t)) (omega arith) in
      let (same, spared) = replay-PutsAt (AtHome s.lh.block s.lh.n) to_home d1 puts in
      record {
        written =
            replay-home s.view s.lh.block s.lh.n s.lh.n 0 d1 (omega arith)
              (λ t lt. absurd (omega arith));
        others = λ c out away. spared c (λ e h q. away h.0 h.1 (q ∙ h.2)) ∙ rw (← dev) (rest c out);
      }

  -- Recovery once every home block is written, before or after the header is cleared.
  all_written :
      (us vs ws : List Write) (h : LogHeader)
      → h.n ≡ 0
      → us ≡ to_log ++ vs
      → vs ≡ (head full_head ∷ to_home) ++ ws
      → Begins ws (head h ∷ [])
      → AllNew s (recovered s (replay us s.dev)).block
  all_written us vs [] h empty q r b =
      rw (q, r, replay-append to_log ((head full_head ∷ to_home) ++ []) s.dev, append-nil to_home)
        (after_head to_home ([], sym (append-nil to_home)))
  all_written us vs (w ∷ ws) h empty q r (rest, e) =
      let none_left : ws ≡ [] = nil_of_append ws rest (tail_of (head h) w [] (ws ++ rest) e) in
      let last : w ≡ head h = cc e in
      rw
        (
          q,
          r,
          none_left,
          last,
          replay-append to_log ((head full_head ∷ to_home) ++ head h ∷ []) s.dev,
          replay-append to_home (head h ∷ []) (perform (head full_head) (replay to_log s.dev)),
          recovered-empty s
              (perform (head h) (replay to_home (perform (head full_head) (replay to_log s.dev))))
              empty,
        )
        all_home

  -- A crash after some of the writes of the commit.
  cut_short :
      s.dev.header.n ≡ 0
      → (us : List Write) (h : LogHeader) → h.n ≡ 0
      → Begins us (to_log ++ ((head full_head ∷ to_home) ++ head h ∷ []))
      → AllOld s (recovered s (replay us s.dev)).block
        ⊎ AllNew s (recovered s (replay us s.dev)).block
  cut_short clean us h empty b = elim (Begins-append us to_log _ b) [
    | inl in_log ↦ inl (before_head clean us in_log)
    | inr (vs, q, c) ↦ elim (Begins-append vs (head full_head ∷ to_home) (head h ∷ []) c) [
      | inl d ↦ on_head clean us vs q d
      | inr (ws, r, d) ↦ inr (all_written us vs ws h empty q r d)
    ]
  ]

commit_nothing : (s : Log) → s.lh.n ≡ 0 → commit s ≡ s
unfolding commit
commit_nothing s e = ground arith

-- A commit is atomic for crashes. Where the log on the device is empty and no logged block lies in
-- the log itself, a crash after any number `us` of the commit's writes, followed by a restart and its
-- recovery, leaves either every block outside the log as it was before the commit, or every block of
-- the transaction as it was in the cache and every other block as it was.
pub commit-atomic :
    (s : Log) (us rest : List Write)
    → Apart s.start s.lh.n s.lh.block
    → s.dev.header.n ≡ 0
    → (commit s).trace ≡ s.trace ++ (us ++ rest)
    → AllOld s (recovered s (replay us s.dev)).block
      ⊎ AllNew s (recovered s (replay us s.dev)).block
commit-atomic s us rest apart clean e = elim (ℕ_discrete s.lh.n 0) [
  | yes z ↦
      let nothing : us ≡ [] = nil_of_append us rest (
        append-cancel s.trace [] (us ++ rest)
          (append-nil s.trace ∙ sym (ap (λ (l : Log). l.trace) (commit_nothing s z)) ∙ e)) in
      inl (rw nothing (before_head s apart clean [] (to_log s apart, refl)))
  | no nz ↦
      let (h, empty, full) = commit-trace s apart (omega arith) in
      let same = append-cancel s.trace _ _ (sym full ∙ e) in
      cut_short s apart clean us h empty (rest, same)
]
