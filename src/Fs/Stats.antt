-- ===== src/Fs/Stats.antt =====
-- What vmwfs_read_stat shows of the attributes, and what vmwfs_write_stat sends of a stat.
use vmware_addons.Base.{
  ℕ, ◌+◌, ◌*◌, ◌^◌, ◌≡◌, ◌≤◌, ◌<◌, refl, Bool, true, false, none, some, [], ◌&&◌, cond, arith,
}
use vmware_addons.Machine.{Env, Trace}
use vmware_addons.Machine.Laws.{Returns}
use vmware_addons.Folders.{Attributes}
use vmware_addons.Node.{parent, copy_path_to}
use vmware_addons.Fs.{Volume, names_up, with_path, path_name_length, fake_block_size}
use vmware_addons.Fs.Vnodes.{
  to_unix_time, to_vmw_time, Rights, Stat, stat_of, attributes_of, vmwfs_write_stat,
}

-- A time in seconds that the host's 63-bit count of 100 ns since 1601 holds.
abbrev pub InRange : ℕ → Type 0
InRange s = (s + 11644473600) * 10000000 < 2 ^ 63

-- TO_UNIX_TIME undoes TO_VMW_TIME on times whose count the host's signed 64-bit number holds.
to_unix_time-to_vmw_time : (s : ℕ) → InRange s → to_unix_time (to_vmw_time s) ≡ s
unfolding to_unix_time to_vmw_time
to_unix_time-to_vmw_time s h = omega arith

-- The blocks that vmwfs_read_stat counts hold the size, and one block fewer does not.
stat_of-blocks :
    (device inode : ℕ) (a : Attributes) (is_dir : Bool)
    → let s = stat_of device inode a is_dir in
      (s.size ≤ fake_block_size * s.blocks)
      × (fake_block_size * s.blocks < s.size + fake_block_size)
unfolding stat_of
stat_of-blocks device inode a is_dir = ground arith

abbrev pub TimesInRange : Stat → Type 0
TimesInRange s = InRange s.cr_time × InRange s.a_time × InRange s.m_time × InRange s.c_time

-- What group and others have: the user's rights to read and execute, and none to write.
abbrev pub Follows : Rights → Rights → Type 0
Follows user r =
    (r.readable ≡ user.readable) × (r.writable ≡ false) × (r.executable ≡ user.executable)

abbrev pub Shows : Stat → Stat → Type 0
Shows s s' =
    (s'.mode.user.readable ≡ s.mode.user.readable)
    × (s'.mode.user.writable ≡ s.mode.user.writable)
    × (s'.mode.user.executable ≡ (s.mode.directory && s.mode.user.executable))
    × Follows s'.mode.user s'.mode.group
    × Follows s'.mode.user s'.mode.others
    × (s'.size ≡ cond s.mode.directory 0 s.size)
    × (s'.cr_time ≡ s.cr_time)
    × (s'.a_time ≡ s.a_time)
    × (s'.m_time ≡ s.m_time)
    × (s'.c_time ≡ s.c_time)

-- The stat that vmwfs_read_stat makes of the attributes that vmwfs_write_stat sends for a stat with times
-- in range shows the same rights of the user, size and times, except that a file has no execute bit and a
-- directory has size 0. The rights of the group and of others are lost: both are shown with what the user
-- may read and execute, and without the right to write.
pub stat_of-attributes_of :
    (device inode : ℕ) (s : Stat)
    → TimesInRange s
    → Shows s (stat_of device inode (attributes_of s) s.mode.directory)
unfolding stat_of attributes_of
stat_of-attributes_of device inode s (cr, a, m, c) = (
  ground arith,
  ground arith,
  ground arith,
  (refl, refl, refl),
  (refl, refl, refl),
  refl,
  to_unix_time-to_vmw_time s.cr_time cr,
  to_unix_time-to_vmw_time s.a_time a,
  to_unix_time-to_vmw_time s.m_time m,
  to_unix_time-to_vmw_time s.c_time c,
)

-- vmwfs_write_stat on the root, which has no parent, never returns once it has its path buffer: it
-- ends at `node->GetParent()->GetInode()` or before.
write_stat_root :
    (e : Env) (v : Volume) (self : ℕ) (s : Stat) (mask : ℕ) (t : Trace)
    → names_up self [] v.tree.root ≡ some []
    → parent self v.tree.root ≡ none
    → e.malloc_answer t path_name_length ≡ true
    → ¬ Returns (λ _ _. Unit {0}) (vmwfs_write_stat e v self s mask t)
unfolding vmwfs_write_stat with_path copy_path_to
write_stat_root e v self s mask t top above memory = grind (arith, top, above, memory)
