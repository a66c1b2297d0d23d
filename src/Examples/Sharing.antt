-- ===== src/Examples/Sharing.antt =====
-- Examples of the clipboard, the settings, the mouse filter and the tray application.
use vmware_addons.Base.{
  ℕ, ◌*◌, ◌≡◌, ◌≢◌, ◌⊎◌, inl, inr, refl, sym, ap, ◌∙◌, Bool, true, false, ◌==◌, Bytes, List, [],
  ◌∷◌, ◌++◌, Option, none, some, cond, take, drop, of_le_bytes, same, same_iff, Bool-cases, arith,
}
use vmware_addons.Machine.{Env, Trace, Status, ok, entry_not_found, fault}
use vmware_addons.Machine.Laws.{Returns}
use vmware_addons.Sharing.Clipboard.{get_host_clipboard, set_host_clipboard, get_clip_length}
use vmware_addons.Sharing.Clipboard.Words.{IsText}
use vmware_addons.Sharing.Clipboard.Receive.{Received, Serves, fetched, get_host_clipboard-text}
use vmware_addons.Sharing.Clipboard.Safety.{Answered, get_host_clipboard-Answered}
use vmware_addons.Sharing.Clipboard.Send.{announced, received, set_host_clipboard-text}
use vmware_addons.Sharing.Settings.{Settings, Storage, get_bool, reload, set_bool}
use vmware_addons.Sharing.Settings.Sharing.{IsMessage, reload-set_bool}
use vmware_addons.Sharing.Filter.{Message, filter, mouse_enabled, mouse_moved, settings_changed}
use vmware_addons.Sharing.Filter.Laws.{
  Filtered, absolute, filter-Filtered, settings_changed-set_bool,
}
use vmware_addons.Tray.{
  Desk, Tray, clipboard_changed, clipboard_poll, clipboard_sharing, message_received,
}
use vmware_addons.Tray.Polling.{clipboard_changed-faults, clipboard_poll-text}
use vmware_addons.Tray.Toggles.{IsConsistent, message_received-IsConsistent}
use vmware_addons.Examples.{blank, host, open_backdoor}

-- More than one word.
abbrev text : Bytes
text = b'h' ∷ b'e' ∷ b'l' ∷ b'l' ∷ b'o' ∷ []

text-IsText : IsText text
text-IsText = (
  omega arith,
  omega arith,
  (
    omega arith,
    omega arith,
    (omega arith, omega arith, (omega arith, omega arith, (omega arith, omega arith, tt))),
  ),
)

-- A host with that text in its clipboard.
abbrev clip_host : Env
clip_host = record host {
  port_in_answer = λ t c. record blank {
    eax = cond (c.ecx == get_clip_length) 5 (of_le_bytes (take 4 (drop (4 * fetched t) text)));
  };
}

clip_host-Serves : Serves clip_host text
clip_host-Serves = ((λ t c h. rw h refl), (λ t c h. rw h refl))

abbrev no_stale : Trace → ℕ
no_stale t = 0xFFFFFFFFFFFFFFFF

get_host_clipboard-text_example :
    Returns (λ r t'. Received text r) (get_host_clipboard clip_host open_backdoor true [])
get_host_clipboard-text_example =
    get_host_clipboard-text clip_host open_backdoor text [] clip_host-Serves text-IsText refl
      (omega arith) (omega arith)

get_host_clipboard-Answered_example :
    Returns (Answered 0) (get_host_clipboard clip_host open_backdoor true [])
get_host_clipboard-Answered_example = get_host_clipboard-Answered clip_host open_backdoor true []

set_host_clipboard-text_example :
    Returns
      (λ s t'. (s ≡ ok) × (announced t' ≡ 5) × (take (announced t') (received t') ≡ text))
      (set_host_clipboard clip_host open_backdoor no_stale (some (text ++ (7 ∷ []))) 5 [])
set_host_clipboard-text_example =
    set_host_clipboard-text clip_host open_backdoor no_stale text (7 ∷ []) [] text-IsText refl
      (omega arith) (omega arith) (omega arith)

-- A message as a list of its names and values, and a file that holds a message.
abbrev Entries : Type 0
Entries = List (Bytes × Bool)

abbrev find : Entries → Bytes → Option Bool
find [] name = none
find ((n, v) ∷ m) name = cond (same n name) (some v) (find m name)

abbrev replace : Entries → Bytes → Bool → Status × Entries
replace [] name v = (entry_not_found, [])
replace ((n, w) ∷ m) name v =
    let rest : Status × Entries = replace m name v in
    cond (same n name) (ok, (n, v) ∷ m) (rest.0, (n, w) ∷ rest.1)

abbrev entries : Storage
entries = record {
  Message = Entries;
  File = Entries;
  empty = [];
  find_bool = find;
  replace_bool = replace;
  add_bool = λ m name v. (ok, (name, v) ∷ m);
  set_to = λ file. (ok, file);
  flatten = λ m file. (ok, m);
  unflatten = λ file m. file;
}

same_refl : (n : Bytes) → same n n ≡ true
same_refl n = (same_iff n n).1 refl

differs : (n name : Bytes) → n ≢ name → same n name ≡ false
differs n name ne = elim (Bool-cases (same n name)) [
  | inl e ↦ absurd (ne ((same_iff n name).0 e))
  | inr e ↦ e
]

find-replace :
    (m : Entries) (name : Bytes) (v : Bool)
    → (((replace m name v).0 ≡ entry_not_found) × ((replace m name v).1 ≡ m) × (find m name ≡ none))
      ⊎ (((replace m name v).0 ≡ ok)
          × (find ((replace m name v).1) name ≡ some v)
          × ((other : Bytes) → other ≢ name → find ((replace m name v).1) other ≡ find m other))
find-replace [] name v = inl (refl, refl, refl)
find-replace ((n, w) ∷ m) name v = elim (Bool-cases (same n name)) [
  | inl e ↦
      let n_name : n ≡ name = (same_iff n name).0 e in
      rw e
        (inr (refl, rw e refl, (λ other ne. rw (differs n other (λ z. ne (sym z ∙ n_name))) refl)))
  | inr e ↦ rw e (elim (find-replace m name v) [
    | inl (missing, same_, absent) ↦ inl (missing, ap (λ x. (n, w) ∷ x) same_, absent)
    | inr (done_, new, rest) ↦
        inr
          (done_, rw e new, (λ other ne. ap (λ x. cond (same n other) (some w) x) (rest other ne)))
  ])
]

entries-IsMessage : IsMessage entries
entries-IsMessage = record {
  replaced = find-replace;
  added = λ m name v h.
      (rw (same_refl name) refl, (λ other ne. rw (differs name other (λ z. ne (sym z))) refl));
  stored = λ m m' file name a b. refl;
}

abbrev saved : Settings entries
saved = record { message = (mouse_enabled, true) ∷ []; opened = false }

reload-set_bool_example :
    (get_bool entries
        ((reload entries (saved, (set_bool entries (saved, []) mouse_enabled false).1)).0)
        mouse_enabled
        true
      ≡ false)
    × (get_bool entries
          ((reload entries (saved, (set_bool entries (saved, []) mouse_enabled false).1)).0)
          []
          true
        ≡ get_bool entries ((set_bool entries (saved, []) mouse_enabled false).0) [] true)
reload-set_bool_example =
    reload-set_bool entries entries-IsMessage saved saved [] mouse_enabled [] false true (λ g. refl)
      (λ m g. refl)

abbrev moved : Message
moved = record { what = mouse_moved; position = some (3, 4) }

filter-Filtered_example :
    Returns
      (λ r t'. Filtered true moved r × ((true ≡ true) ⊎ (t' ≡ [])))
      (filter clip_host open_backdoor (λ x. x) (λ y. y) (0, 0) true moved [])
filter-Filtered_example =
    filter-Filtered clip_host open_backdoor (λ x. x) (λ y. y) (0, 0) true moved []

settings_changed-set_bool_example :
    Returns
      (λ r t'. (r.0 ≡ false) × ((false ≡ true) ⊎ (absolute t' ≡ false)))
      (settings_changed clip_host open_backdoor entries
        (saved, (set_bool entries (saved, []) mouse_enabled false).1)
        [])
settings_changed-set_bool_example =
    settings_changed-set_bool clip_host open_backdoor entries entries-IsMessage saved saved [] false
      [] refl (λ g. refl) (λ m g. refl)

abbrev desk : Desk
desk = record { lock_answer = λ t. true; data_answer = λ t. true; spawn_answer = λ t. true }

abbrev tray : Tray entries
tray = record {
  settings = (saved, []);
  clipboard_poller = true;
  watching = true;
  clock_synchronizer = true;
  cleanup_in_progress = false;
  clipboard = none;
  clock = none;
}

clipboard_poll-text_example :
    Returns
      (λ t' u'. (t' ≡ record tray { clipboard = some text }) ⊎ (t' ≡ tray))
      (message_received entries clip_host open_backdoor desk no_stale clipboard_poll tray [])
clipboard_poll-text_example =
    clipboard_poll-text clip_host open_backdoor desk no_stale entries tray [] text clip_host-Serves
      text-IsText refl (omega arith) (omega arith) (λ v. (refl, refl))

clipboard_changed-faults_example :
    message_received entries clip_host open_backdoor desk no_stale
      (clipboard_changed (some text) [])
      tray
      []
    ≡ fault
clipboard_changed-faults_example =
    clipboard_changed-faults clip_host open_backdoor desk no_stale entries tray [] text refl
      (omega arith) refl refl

tray-IsConsistent : IsConsistent entries entries-IsMessage tray
unfolding get_bool same
tray-IsConsistent = (refl, refl, refl)

message_received-IsConsistent_example :
    Returns
      (λ t' u'. IsConsistent entries entries-IsMessage t')
      (message_received entries clip_host open_backdoor desk no_stale clipboard_sharing tray [])
message_received-IsConsistent_example =
    message_received-IsConsistent entries entries-IsMessage clip_host open_backdoor desk no_stale
      clipboard_sharing tray [] refl tray-IsConsistent
