-- ===== src/Sharing/Clipboard.antt =====
-- shared_sources/VMWBackdoor.cpp: the clipboard, four bytes a call.
pub mod Words
pub mod Receive
pub mod Safety
pub mod Send
use vmware_addons.Base.{
  ℕ, zero, suc, ◌+◌, ◌-◌, ◌%◌, ◌^◌, Bool, true, false, not, ◌||◌, Option, none, some, Bytes, ◌==◌,
  ltb, leb, cond, length, replicate, take, drop, List, [], ◌∷◌, ◌++◌, le_bytes, of_le_bytes,
}
use vmware_addons.Machine.{
  Env, M, Trace, Status, ok, error, not_allowed, no_memory, pure, ask, checked, load, store, malloc,
  if◌then◌else◌, ◌>>=◌, ◌>>◌,
}
use vmware_addons.Backdoor.{Regs, CoreBackdoor, backdoor_call}
use vmware_addons.Sharing.{stack_regs}

abbrev pub get_clip_length : ℕ
get_clip_length = 0x06

abbrev pub get_clip_data : ℕ
get_clip_data = 0x07

abbrev pub set_clip_length : ℕ
set_clip_length = 0x08

abbrev pub set_clip_data : ℕ
set_clip_data = 0x09

abbrev pub max_clip_length : ℕ
max_clip_length = 65436

-- `strlen`, `none` where no 0 ends the string inside its memory.
unfoldable pub strlen : Bytes → Option ℕ
strlen [] = none
strlen (c ∷ cs) =
    let rest = strlen cs in
    elim (c == 0) [ true ↦ some 0 | false ↦ elim rest [ none ↦ none | some n ↦ some (suc n) ] ]

-- `left > 4 ? 4 : left`
abbrev pub chunk_of : ℕ → ℕ
chunk_of left = cond (ltb 4 left) 4 left

-- What GetHostClipboard stores through its pointers: the block of memory and the length.
pub record Clip : Type 0 where
  pub text : Bytes
  pub size : ℕ

module _ (e : Env) where
  -- The loop of GetHostClipboard, with what is in `buffer` at its end; `none` if the fuel runs out.
  unfoldable pub fetch : ℕ → Bytes → ℕ → ℕ → M (Option Bytes)
  unfolding backdoor_call
  fetch zero buffer total left = pure none
  fetch (suc fuel) buffer total left = do
    regs ← backdoor_call e stack_regs get_clip_data 0
    filled ← store buffer (total - left) (take (chunk_of left) (le_bytes 8 regs.eax))
    elim (leb left 4) [
      | true ↦ do ended ← store filled total (0 ∷ []); pure (some ended)
      | false ↦ fetch fuel filled total (left - 4)
    ]

  -- What the local variable `param` of SetHostClipboard holds before it is filled, at each round.
  module _ (stale : Trace → ℕ) where
    -- The loop of SetHostClipboard; `none` if the fuel runs out.
    unfoldable pub put_words : ℕ → Bytes → ℕ → ℕ → M (Option (Unit {0}))
    unfolding backdoor_call
    put_words zero memory total left = pure none
    put_words (suc fuel) memory total left = do
      bytes ← load memory (total - left) (chunk_of left)
      old ← ask stale
      sent ←
          backdoor_call e stack_regs set_clip_data
            (of_le_bytes (bytes ++ drop (chunk_of left) (le_bytes 8 old)))
      elim (leb left 4) [ true ↦ pure (some tt) | false ↦ put_words fuel memory total (left - 4) ]

module _ (e : Env) (b : CoreBackdoor) where
  -- VMWBackdoor::GetHostClipboard, where `wanted` says whether `text` is not NULL. The fuel is one
  -- round for each byte.
  unfoldable pub get_host_clipboard : Bool → M (Status × Option Clip)
  unfolding backdoor_call
  get_host_clipboard wanted =
      if not b.in_vmware
      then pure (not_allowed, none)
      else if not wanted
      then pure (error, none)
      else do
        regs ← backdoor_call e stack_regs get_clip_length 0
        let total = regs.eax % 2 ^ 32
        if total == 0 || ltb max_clip_length total then pure (error, none) else do
          got ← malloc e (total + 1)
          if not got then pure (no_memory, none) else do
            buffer ← fetch e total (replicate (total + 1) 0) total total
            filled ← checked buffer
            size ← checked (strlen filled)
            pure (ok, some (record { text = filled; size = size }))

  module _ (stale : Trace → ℕ) where
    -- VMWBackdoor::SetHostClipboard, where the memory at `text` is given, `none` for NULL. The fuel is
    -- one round for each byte and one more.
    unfoldable pub set_host_clipboard : Option Bytes → ℕ → M Status
    unfolding backdoor_call
    set_host_clipboard none n = if not b.in_vmware then pure not_allowed else pure error
    set_host_clipboard (some memory) n =
        if not b.in_vmware then pure not_allowed else if n == 0 then pure error else do
          ended ← store memory n (0 ∷ [])
          size ← checked (strlen ended)
          let total = size % 2 ^ 32
          sent ← backdoor_call e stack_regs set_clip_length total
          done_ ← put_words e stale (total + 1) ended total total
          rest ← checked done_
          pure ok
