-- ===== src/Video/Driver/Serving.antt =====
-- OpenHook, ControlHook and FreeHook of vmware_video/kernel/device.c, called in any order that the kernel
-- calls them in.
use vmware_addons.Base.{ℕ, ◌+◌, ◌^◌, ◌<◌, ◌≡◌, ◌⊎◌, inl, inr, refl, sym, ◌∙◌, subst, some, arith}
use mathlib.Core.Option.{some-injective}
use vmware_addons.Machine.{Status}
use vmware_addons.Video.Driver.{Answers, Device, Kernel, Shared, free_hook, new_device, open_hook}
use vmware_addons.Video.Driver.Areas.{IsDevice, Owns, free_hook-Owns, open_hook-Owns, owned}
use vmware_addons.Video.Driver.Control.{Ioctl, control_hook}
use vmware_addons.Video.Driver.Control.Palette.{Kept, control_hook-Kept}

-- The calls that the kernel makes: it opens the device, passes requests on while it is open, and frees it
-- as often as it was opened.
pub data Serves (a : Answers) (start : Kernel) : Device → Kernel → Type 0 where
  loaded : Serves a start new_device start
  opened :
      {d : Device} {k : Kernel}
      → Serves a start d k
      → d.is_open + 1 < 2 ^ 32
      → Serves a start ((open_hook a d k).1) ((open_hook a d k).2)
  freed :
      {d d' : Device} {k k' : Kernel}
      → Serves a start d k
      → 0 < d.is_open
      → free_hook a d k ≡ some (d', k')
      → Serves a start d' k'
  controlled :
      {d d' : Device} {k k' : Kernel} (fuel : ℕ) (s : Shared) (request : Ioctl) (st : Status)
      → Serves a start d k
      → 0 < d.is_open
      → d.si ≡ some s
      → control_hook a fuel d s request k ≡ some (st, d', k')
      → Serves a start d' k'

keeps :
    (a : Answers) (start : Kernel) {d : Device} {k : Kernel}
    → Serves a start d k
    → Owns start.live d k × IsDevice d
keeps a start loaded = ((λ i. omega arith), inl (refl, refl, refl))
keeps a start (opened run few) =
    let (own, valid) = keeps a start run in open_hook-Owns a start.live _ _ valid few own
keeps a start (freed {d = d} {k = k} run some_ e) =
    let (own, valid) = keeps a start run in
    let (r, e', less, own', valid') = free_hook-Owns a start.live d k valid some_ own in
    let same_ = some-injective _ _ (sym e' ∙ e) in
    subst (λ x. Owns start.live (x.0) (x.1) × IsDevice (x.0)) same_ (own', valid')
keeps a start
      (controlled {d = d} {d' = d'} {k = k} {k' = k'} fuel s request st run some_ has_si e) =
    let (own, valid) = keeps a start run in
    let (same_, still, all) = subst (Kept d k) e (control_hook-Kept a fuel d s request k has_si) in
    (
      (λ i. omega (arith, own i, all i)),
      elim valid [
        | inl (closed, no_area, no_si) ↦ absurd (omega arith)
        | inr (n, word, s', was) ↦ inr (omega arith, omega arith, still.0, still.1)
      ],
    )

-- After any calls of OpenHook, ControlHook and FreeHook, successful or not, in which fewer than 2 ^ 32 - 1 openers
-- are counted, the areas are those from before the driver was loaded and those that the device owns; a
-- device that is not open owns none.
pub Serves-Owns :
    (a : Answers) (start : Kernel) (d : Device) (k : Kernel) (i : ℕ)
    → Serves a start d k
    → (k.live i ≡ start.live i + owned d i) × ((0 < d.is_open) ⊎ (k.live i ≡ start.live i))
Serves-Owns a start d k i run =
    let (own, valid) = keeps a start run in
    (
      own i,
      elim valid [
        | inl (c, no_area, no_si) ↦ inr (let o = rw (no_area, no_si) at (own i) in omega (arith, o))
        | inr (some_, word, s, has_si) ↦ inl some_
      ],
    )
