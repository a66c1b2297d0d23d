-- ===== src/Fs/Mounting.antt =====
-- The count of mounts, and a mount that fails.
use vmware_addons.Base.{◌⊎◌, ◌≢◌, ◌%◌, ◌^◌, inl, inr, ℕ, ◌≡◌, ◌<◌, true, false, arith}
use vmware_addons.Machine.{Cpu, Env, Trace, unsupported, fault, ◌>>=◌}
use vmware_addons.Machine.Laws.{Returns}
use vmware_addons.Folders.{Folders}
use vmware_addons.Folders.Mount.{destroy_folders, construct_folders}
use vmware_addons.Backdoor.{back_magic, backdoor_call, backdoor_rpc_call, close_rpc_channel}
use vmware_addons.Backdoor.Rpc.{destroy, construct}
use vmware_addons.Fs.{Volume}
use vmware_addons.Fs.Volumes.{folders_size, vmwfs_mount, vmwfs_unmount}

-- Of a mounted volume, a second mount is refused; after that and an unmount, the count of mounts is
-- still above 0, and a further mount is refused as well.
remount_refused :
    (e : Env) (v : Volume) (id : ℕ) (raw : Folders) (t : Trace)
    → 0 < v.mount_count
    → Returns
        (λ r t'. r.status ≡ unsupported)
        ((do
          first ← vmwfs_mount e v false id raw
          gone ← vmwfs_unmount e first.volume
          vmwfs_mount e gone.volume false id raw)
          t)
unfolding vmwfs_mount vmwfs_unmount destroy_folders destroy close_rpc_channel backdoor_rpc_call
    backdoor_call
remount_refused e v id raw t h = ground arith

-- Where the port instruction raises a signal, or never answers with the magic number, as outside
-- VMware, a first mount that gets memory for its object reads the object that it has deleted.
mount_outside :
    (e : Env) (v : Volume) (id : ℕ) (raw : Folders) (t : Trace)
    → (e.port_crashes ≡ true)
      ⊎ ((t' : Trace) (c : Cpu) → (e.port_in_answer t' c).ebx % 2 ^ 32 ≢ back_magic)
    → v.mount_count ≡ 0
    → e.malloc_answer t folders_size ≡ true
    → vmwfs_mount e v false id raw t ≡ fault
unfolding vmwfs_mount destroy_folders construct_folders construct destroy close_rpc_channel
    backdoor_rpc_call backdoor_call
mount_outside e v id raw t (inl crash) first got = ground arith
mount_outside e v id raw t (inr odd) first got = grind (arith, odd)
