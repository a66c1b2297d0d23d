-- ===== src/Video/Fifo/Queue.antt =====
-- The accelerant's batches of vmware_video/accelerant/Fifo.c and VMware that reads the ring, one word after
-- another, between any two of them.
use vmware_addons.Base.{
  ℕ, zero, suc, ◌+◌, ◌-◌, ◌*◌, ◌<◌, ◌≡◌, refl, sym, ap, ◌∙◌, subst, some, List, [], ◌∷◌, ◌++◌,
  length, length-append, append_assoc, arith,
}
use mathlib.Core.Option.{some-injective}
use vmware_addons.Video.Fifo.{Fifo, fifo_batch, fifo_stop_reg, put}
use vmware_addons.Video.Fifo.Ring.{
  IsRing, IsSync, Stands, Stands-register, ahead, ahead-in, ahead-suc,
}
use vmware_addons.Video.Fifo.Batches.{Holds, fifo_batch-Holds, fifo_batch-full}

-- The words of memory that VMware finds from a position on.
abbrev pub seen : (ℕ → ℕ) → ℕ → ℕ → ℕ → ℕ → List ℕ
seen words base size p zero = []
seen words base size p (suc k) = words (base + p) ∷ seen words base size (ahead size p 1) k

-- VMware has read the word at the position `stop`, and says so in STOP.
abbrev pub advance : ℕ → ℕ → ℕ → Fifo → Fifo
advance base size stop f = record f {
  words = put f.words fifo_stop_reg (4 * (base + ahead size stop 1));
}

-- A ring of `size` words, its STOP position, the words that VMware has taken from memory, and those of all
-- batches: batches with room, batches of which the first word finds the ring full at NEXT_CMD and waits for a
-- synchronisation, and words read, in any order.
pub data Runs (sync : (ℕ → ℕ) → ℕ → ℕ) (base size : ℕ) : Fifo → ℕ → List ℕ → List ℕ → Type 0 where
  begins : {f : Fifo} {stop : ℕ} → Holds f base size stop [] → Runs sync base size f stop [] []
  draws :
      {f g : Fifo} {stop : ℕ} {taken sent : List ℕ} (vs : List ℕ)
      → Runs sync base size f stop taken sent
      → length sent + length vs < length taken + size
      → fifo_batch sync f vs ≡ some g
      → Runs sync base size g stop taken (sent ++ vs)
  waits :
      {f g : Fifo} {stop : ℕ} {taken sent : List ℕ} (vs : List ℕ)
      → Runs sync base size f stop taken sent
      → length sent + 1 ≡ length taken + size
      → 0 < length vs
      → length vs < size
      → fifo_batch sync f vs ≡ some g
      → Runs sync base size g
          (ahead size stop (length sent - length taken))
          (taken ++ seen f.words base size stop (length sent - length taken))
          (sent ++ vs)
  reads :
      {f : Fifo} {stop : ℕ} {taken sent : List ℕ}
      → Runs sync base size f stop taken sent
      → length taken < length sent
      → Runs sync base size
          (advance base size stop f)
          (ahead size stop 1)
          (taken ++ (f.words (base + stop) ∷ []))
          sent

Stands-seen :
    (words : ℕ → ℕ) (base size p : ℕ) (q : List ℕ)
    → Stands words base size p q
    → seen words base size p (length q) ≡ q
Stands-seen words base size p [] h = refl
Stands-seen words base size p (v ∷ q) (first, h) =
    rw (first, Stands-seen words base size (ahead size p 1) q h) refl

-- VMware reads the first word of the queue.
advance-Holds :
    (f : Fifo) (base size stop v : ℕ) (q : List ℕ)
    → Holds f base size stop (v ∷ q)
    → Holds (advance base size stop f) base size (ahead size stop 1) q
advance-Holds f base size stop v q h =
    let on = ahead-suc size stop (length q) h.ring.stop_in (omega (arith, h.fits)) in
    record {
      ring =
          subst (λ x. IsRing (advance base size stop f) base size (ahead size stop 1) x x) on
            (record {
              min_eq = h.ring.min_eq;
              max_eq = h.ring.max_eq;
              stop_eq = refl;
              next_cmd_eq = h.ring.next_cmd_eq;
              next_eq = h.ring.next_eq;
              behind = h.ring.behind;
              small = h.ring.small;
              stop_in = ahead-in size stop 1 h.ring.stop_in (omega (arith, h.ring.stop_in));
              next_cmd_in = h.ring.next_cmd_in;
              next_in = h.ring.next_in;
            });
      fits = omega (arith, h.fits);
      queued =
          Stands-register f.words base size (ahead size stop 1) q fifo_stop_reg
            (4 * (base + ahead size stop 1)) (omega (arith, h.ring.behind)) (h.queued.1);
    }

pub length-sent :
    (taken q sent : List ℕ) → taken ++ q ≡ sent → length sent ≡ length taken + length q
length-sent taken q sent e = sym (ap length e) ∙ length-append taken q

-- What the ring promises: nothing is lost, doubled or exchanged.
abbrev pub IsQueue : ℕ → ℕ → Fifo → ℕ → List ℕ → List ℕ → Type 0
IsQueue base size f stop taken sent = (q : List ℕ) × (taken ++ q ≡ sent) × Holds f base size stop q

-- VMware that sets STOP to NEXT_CMD in a synchronisation, and changes nothing else, has after any batches and reads
-- taken a first part of the words that were sent, in their order, and the ring holds just the others.
-- Each batch has room, or finds the ring full at NEXT_CMD.
pub Runs-IsQueue :
    {sync : (ℕ → ℕ) → ℕ → ℕ} {base size : ℕ} {f : Fifo} {stop : ℕ} {taken sent : List ℕ}
    → IsSync sync
    → Runs sync base size f stop taken sent
    → IsQueue base size f stop taken sent
Runs-IsQueue works (begins h) = ([], refl, h)
Runs-IsQueue {sync} {base} {size} works
      (draws {f = f} {stop = stop} {taken = taken} {sent = sent} vs run room drawn) =
    let (q, e, h) = Runs-IsQueue works run in
    let len = length-sent taken q sent e in
    let (g, batch, holds) = fifo_batch-Holds sync base size stop f q vs h (omega arith) in
    let same_ = some-injective _ _ (sym batch ∙ drawn) in
    (
      q ++ vs,
      sym (append_assoc taken q vs) ∙ ap (λ z. z ++ vs) e,
      subst (λ g. Holds g base size stop (q ++ vs)) same_ holds,
    )
Runs-IsQueue {sync} {base} {size} works
      (waits {f = f} {stop = stop} {taken = taken} {sent = sent} vs run full some_ few drawn) =
    let (q, e, h) = Runs-IsQueue works run in
    let len = length-sent taken q sent e in
    let n : length sent - length taken ≡ length q = omega arith in
    let (g, batch, holds) =
      fifo_batch-full sync base size stop f q vs works h (omega arith) some_ few in
    let same_ = some-injective _ _ (sym batch ∙ drawn) in
    (
      vs,
      rw (n, Stands-seen f.words base size stop q h.queued, e) refl,
      rw n (subst (λ g. Holds g base size (ahead size stop (length q)) vs) same_ holds),
    )
Runs-IsQueue {sync} {base} {size} works
      (reads {f = f} {stop = stop} {taken = taken} {sent = sent} run some_) =
    let (q, e, h) = Runs-IsQueue works run in read_one q e h
  where
    read_one :
        (q : List ℕ)
        → taken ++ q ≡ sent
        → Holds f base size stop q
        → IsQueue base size
            (advance base size stop f)
            (ahead size stop 1)
            (taken ++ (f.words (base + stop) ∷ []))
            sent
    read_one [] e h = let len = length-sent taken [] sent e in absurd (omega arith)
    read_one (v ∷ q) e h =
        (q, rw h.queued.0 (append_assoc taken (v ∷ []) q ∙ e), advance-Holds f base size stop v q h)
