-- ===== src/Video/Fifo/Batches.antt =====
-- Batches of command words in the ring of vmware_video/accelerant/Fifo.c: the queue that VMware reads.
use vmware_addons.Base.{
  ℕ, suc, ◌+◌, ◌*◌, ◌%◌, ◌^◌, ◌<◌, ◌≤◌, ◌≡◌, ◌≢◌, refl, ◌∙◌, subst, some, List, [], ◌∷◌, ◌++◌,
  length, length-append, append-nil, append_assoc, arith,
}
use vmware_addons.Video.Fifo.{
  Fifo, fifo_batch, fifo_end_write, fifo_init, fifo_sync, fifo_writes, fifo_next_cmd_reg,
  fifo_stop_reg,
}
use vmware_addons.Video.Fifo.Ring.{
  IsRing, IsSync, sync-IsRing, fifo_write-full, ahead, end_write-IsRing, fifo_write-room, Stands,
  Stands-put, Stands-register, written, written-IsRing,
}

-- The ring holds a queue of words for VMware, from its STOP position to NEXT_CMD, and no batch is open.
pub record Holds (f : Fifo) (base size stop : ℕ) (q : List ℕ) : Type 0 where
  pub ring : IsRing f base size stop (ahead size stop (length q)) (ahead size stop (length q))
  pub fits : length q < size
  pub queued : Stands f.words base size stop q

module _ (sync : (ℕ → ℕ) → ℕ → ℕ) (base size stop : ℕ) where
  -- Some words of a batch, where `m` words stand in front of them: the position goes on, and as long as
  -- there is room the words stand behind the others.
  fifo_writes-IsRing :
      (vs q : List ℕ) (m k : ℕ) (f : Fifo)
      → length q ≡ m
      → k < size
      → (0 < length vs → k + 1 < size)
      → m + length vs ≤ size
      → IsRing f base size stop (ahead size stop k) (ahead size stop m)
      → Stands f.words base size stop q
      → (g : Fifo) × (fifo_writes sync f vs ≡ some g)
        × IsRing g base size stop (ahead size stop k) (ahead size stop (m + length vs))
        × (m + length vs < size → Stands g.words base size stop (q ++ vs))
  unfolding fifo_writes
  fifo_writes-IsRing [] q m k f len k_in open_ few r h = (
    f,
    refl,
    subst (λ x. IsRing f base size stop (ahead size stop k) (ahead size stop x)) (omega arith) r,
    (λ z. rw (append-nil q) h),
  )
  fifo_writes-IsRing (v ∷ vs) q m k f len k_in open_ few r h =
      let room : stop ≢ ahead size (ahead size stop k) 1 = ground (arith, r.stop_in) in
      let one =
        fifo_write-room sync f base size stop (ahead size stop k) (ahead size stop m) v r room in
      let on : ahead size (ahead size stop m) 1 ≡ ahead size stop (m + 1) =
        ground (arith, r.stop_in) in
      let behind = rw len at (Stands-put f.words base size stop q v r.stop_in (omega arith) h) in
      let (g, run, r'', stands') =
        fifo_writes-IsRing vs (q ++ (v ∷ [])) (m + 1) k
          (written sync f base size stop (ahead size stop k) (ahead size stop m) v r)
          (omega (arith, length-append q (v ∷ []))) k_in (λ z. open_ (omega arith)) (omega arith)
          (subst
            (IsRing (written sync f base size stop (ahead size stop k) (ahead size stop m) v r) base
              size stop (ahead size stop k))
            on (written-IsRing sync f base size stop (ahead size stop k) (ahead size stop m) v r))
          behind in
      let sum : m + 1 + length vs ≡ m + suc (length vs) = omega arith in
      (
        g,
        rw (fifo_writes, one) run,
        rw sum at r'',
        (λ z. rw (append_assoc q (v ∷ []) vs) at (stands' (omega arith))),
      )

  -- In a ring of fewer than 2 ^ 28 words that holds a queue, a batch for which there is room is put behind
  -- the queue: VMware is shown the queue and then the batch, and nothing else.
  pub fifo_batch-Holds :
      (f : Fifo) (q vs : List ℕ)
      → Holds f base size stop q
      → length q + length vs < size
      → (g : Fifo) × (fifo_batch sync f vs ≡ some g) × Holds g base size stop (q ++ vs)
  unfolding fifo_batch fifo_end_write
  fifo_batch-Holds f q vs h room =
      let (g, run, r, queued) =
        fifo_writes-IsRing vs q (length q) (length q) f refl h.fits (λ z. omega arith) (omega arith)
          h.ring h.queued in
      let end = end_write-IsRing sync g base size stop _ _ r in
      (
        fifo_end_write sync g,
        rw (fifo_batch, run) refl,
        record {
          ring = rw (length-append q vs) end;
          fits = omega (arith, length-append q vs);
          queued =
              Stands-register g.words base size stop (q ++ vs) fifo_next_cmd_reg g.fifo_next
                (omega (arith, r.behind)) (queued room);
        },
      )

  -- FifoWrite looks at NEXT_CMD, which stays where it was until the end of the batch: a batch of 2 or more
  -- words that fills the ring with what stands in it to the last word ends with NEXT_CMD on STOP, where
  -- VMware sees no command at all.
  pub fifo_batch-overruns :
      (f : Fifo) (q vs : List ℕ)
      → Holds f base size stop q
      → 1 < length vs
      → length q + length vs ≡ size
      → (g : Fifo) × (fifo_batch sync f vs ≡ some g)
        × (g.words fifo_next_cmd_reg ≡ g.words fifo_stop_reg)
  unfolding fifo_batch fifo_end_write
  fifo_batch-overruns f q vs h several all =
      let (g, run, r, queued) =
        fifo_writes-IsRing vs q (length q) (length q) f refl h.fits (λ z. omega arith) (omega arith)
          h.ring h.queued in
      let end = end_write-IsRing sync g base size stop _ _ r in
      (
        fifo_end_write sync g,
        rw (fifo_batch, run) refl,
        (let full : ahead size stop (length q + length vs) ≡ stop = ground (arith, r.stop_in) in
            rw (r.next_eq, r.stop_eq, full) refl),
      )

module _ (sync : (ℕ → ℕ) → ℕ → ℕ) (base size stop : ℕ) where
  -- Where the queue fills the ring, a batch first waits until VMware has worked it off, and is the queue
  -- then, if it is not as long as the ring itself. VMware sets STOP to NEXT_CMD and changes nothing else.
  pub fifo_batch-full :
      (f : Fifo) (q vs : List ℕ)
      → IsSync sync
      → Holds f base size stop q
      → length q + 1 ≡ size
      → 0 < length vs
      → length vs < size
      → (g : Fifo) × (fifo_batch sync f vs ≡ some g)
        × Holds g base size (ahead size stop (length q)) vs
  unfolding fifo_batch fifo_writes
  fifo_batch-full f q [] works h full some_ few = absurd (omega arith)
  fifo_batch-full f q (v ∷ vs) works h full some_ few =
      let n : ℕ = ahead size stop (length q) in
      let one =
        fifo_write-full sync f base size stop n n h.ring v works (ground (arith, h.ring.stop_in))
          (omega arith) in
      let same_ : fifo_batch sync f (v ∷ vs) ≡ fifo_batch sync (fifo_sync sync f) (v ∷ vs) =
        rw (fifo_batch, fifo_writes, one) refl in
      let zero_ : n ≡ ahead size n 0 = ground (arith, h.ring.next_in) in
      let synced =
        subst (λ x. IsRing (fifo_sync sync f) base size n x x) zero_
          (sync-IsRing sync f base size stop n n h.ring works) in
      let empty : Holds (fifo_sync sync f) base size n [] = record {
        ring = synced;
        fits = omega arith;
        queued = tt;
      } in
      let (g, run, holds) =
        fifo_batch-Holds sync base size n (fifo_sync sync f) [] (v ∷ vs) empty (omega arith) in
      (g, same_ ∙ run, holds)

-- FifoInit makes an empty queue of the memory behind the registers, if there is some.
pub fifo_init-Holds :
    (f : Fifo) (size : ℕ)
    → 4 ≤ f.fifo_min
    → f.fifo_size ≡ 4 * (f.fifo_min + size)
    → 0 < size
    → f.fifo_min + size < 2 ^ 28
    → Holds (fifo_init f) f.fifo_min size 0 []
unfolding fifo_init
fifo_init-Holds f size regs whole some_ small =
    let min : f.fifo_min * 4 % 2 ^ 32 ≡ 4 * f.fifo_min = omega arith in
    let start : f.fifo_min * 4 % 2 ^ 32 ≡ 4 * (f.fifo_min + 0) = omega arith in
    let zero_ : 0 ≡ ahead size 0 0 = ground arith in
    record {
      ring =
          subst (λ x. IsRing (fifo_init f) f.fifo_min size 0 x x) zero_
            (record {
              min_eq = min;
              max_eq = whole;
              stop_eq = start;
              next_cmd_eq = start;
              next_eq = start;
              behind = regs;
              small = small;
              stop_in = some_;
              next_cmd_in = some_;
              next_in = some_;
            });
      fits = some_;
      queued = tt;
    }
