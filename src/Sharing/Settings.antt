-- ===== src/Sharing/Settings.antt =====
-- shared_sources/VMWAddOnsSettings.{h,cpp}: the settings that the tray application and the mouse filter
-- share through a file.
pub mod Sharing
use vmware_addons.Base.{Bool, true, false, Option, none, some, Bytes, cond}
use vmware_addons.Machine.{Status, ok, entry_not_found, is_ok}

-- BMessage and BFile, which are not of the repository: a message of Booleans by name, and the settings
-- file, that set_to opens or creates.
pub record Storage : Type 1 where
  pub Message : Type 0
  pub File : Type 0
  pub empty : Message
  pub find_bool : Message → Bytes → Option Bool
  pub replace_bool : Message → Bytes → Bool → Status × Message
  pub add_bool : Message → Bytes → Bool → Status × Message
  pub set_to : File → Status × File
  pub flatten : Message → File → Status × File
  pub unflatten : File → Message → Message

module _ (s : Storage) where
  -- VMWAddOnsSettings: fSettingsMsg, and whether fSettingsFile is open.
  pub record Settings : Type 0 where
    pub message : s.Message
    pub opened : Bool

  -- An object and the file.
  abbrev pub State : Type 0
  State = Settings × s.File

  -- VMWAddOnsSettings::OpenSettings
  unfoldable pub open_settings : State → Status × State
  open_settings (o, file) =
      let answer : Status × s.File = s.set_to file in
      (answer.0, (record o { opened = is_ok answer.0 }, answer.1))

  -- VMWAddOnsSettings::Reload
  unfoldable pub reload : State → State
  unfolding open_settings
  reload st =
      let tried : Status × State = open_settings st in
      let now : State = tried.1 in
      cond (is_ok tried.0) (record now.0 { message = s.unflatten now.1 now.0.message }, now.1) now

  -- The constructors; GetNodeRef changes nothing.
  unfoldable pub new_settings : s.File → State
  new_settings file =
      let fresh : Settings = record { message = s.empty; opened = false } in reload (fresh, file)

  -- VMWAddOnsSettings::GetBool
  unfoldable pub get_bool : Settings → Bytes → Bool → Bool
  get_bool o name default_value = elim (s.find_bool o.message name) [
    | none ↦ default_value
    | some value ↦ value
  ]

  -- The message part of SetBool.
  unfoldable pub set_in : s.Message → Bytes → Bool → s.Message
  set_in m name value =
      let replaced : Status × s.Message = s.replace_bool m name value in
      elim replaced.0 [ entry_not_found ↦ (s.add_bool replaced.1 name value).1 | _ ↦ replaced.1 ]

  -- VMWAddOnsSettings::SetBool, where B_NAME_NOT_FOUND is `entry_not_found`; what Flatten returns is not
  -- tested.
  unfoldable pub set_bool : State → Bytes → Bool → State
  unfolding open_settings set_in
  set_bool (o, file) name value =
      let changed : Settings = record o { message = set_in o.message name value } in
      let tried : Status × State = open_settings (changed, file) in
      let now : State = tried.1 in
      let saved : s.File = cond (is_ok tried.0) ((s.flatten now.0.message now.1).1) now.1 in
      (record now.0 { opened = false }, saved)
