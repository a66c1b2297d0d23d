-- ===== src/Video/Fifo/Updating.antt =====
-- UpdateThread of vmware_video/accelerant/Fifo.c: what its rounds send.
use vmware_addons.Base.{
  ℕ, zero, suc, ◌+◌, ◌*◌, ◌<◌, ◌≡◌, refl, true, false, some, List, [], ◌∷◌, ◌++◌, leb, ap, ◌∙◌,
  length, length-append, append-nil, append_assoc, arith,
}
use vmware_addons.Video.Fifo.{Fifo, cmd_update, fifo_update_fullscreen, update_rounds}
use vmware_addons.Video.Fifo.Batches.{Holds, fifo_batch-Holds}

-- The updates of a number of rounds.
abbrev pub updates_of : ℕ → ℕ → ℕ → List ℕ
updates_of width height zero = []
updates_of width height (suc n) =
    (cmd_update ∷ 0 ∷ 0 ∷ width ∷ height ∷ []) ++ updates_of width height n

pub updates_of-append :
    (width height n m : ℕ)
    → updates_of width height n ++ updates_of width height m ≡ updates_of width height (n + m)
updates_of-append width height zero m =
    let none_more : m ≡ 0 + m = omega arith in ap (updates_of width height) none_more
updates_of-append width height (suc n) m =
    let one_more : suc (n + m) ≡ suc n + m = omega arith in
    ap (λ vs. (cmd_update ∷ 0 ∷ 0 ∷ width ∷ height ∷ []) ++ vs) (updates_of-append width height n m)
    ∙ ap (updates_of width height) one_more

pub length-updates_of : (width height n : ℕ) → length (updates_of width height n) ≡ 5 * n
length-updates_of width height zero = omega arith
length-updates_of width height (suc n) = omega (arith, length-updates_of width height n)

module _ (sync : (ℕ → ℕ) → ℕ → ℕ) (base size stop : ℕ) where
  -- Rounds for whose updates the ring has room send them one after another.
  pub update_rounds-Holds :
      (n left round width height : ℕ) (f : Fifo) (q : List ℕ)
      → round + left ≡ n
      → Holds f base size stop q
      → length q + 5 * left < size
      → (g : Fifo) × (update_rounds sync (λ i. leb n i) (suc left) round width height f ≡ some g)
        × Holds g base size stop (q ++ updates_of width height left)
  unfolding update_rounds fifo_update_fullscreen
  update_rounds-Holds n zero round width height f q at h room =
      let now : leb n round ≡ true = ground arith in
      (f, rw (update_rounds, now) refl, rw (append-nil q) h)
  update_rounds-Holds n (suc left) round width height f q at h room =
      let vs : List ℕ = cmd_update ∷ 0 ∷ 0 ∷ width ∷ height ∷ [] in
      let now : leb n round ≡ false = ground arith in
      let (g, batch, holds) = fifo_batch-Holds sync base size stop f q vs h (omega arith) in
      let (g', rest, holds') =
        update_rounds-Holds n left (round + 1) width height g (q ++ vs) (omega arith) holds
          (omega (arith, length-append q vs)) in
      (
        g',
        rw (update_rounds, now, fifo_update_fullscreen, batch) rest,
        rw (append_assoc q vs (updates_of width height left)) at holds',
      )
