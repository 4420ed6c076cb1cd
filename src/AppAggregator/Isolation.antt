-- ===== src/AppAggregator/Isolation.antt =====
-- What a step of src/app_aggregator.rs does to nicknames that its message is not about.
use transmitic_core.Common.{
  ◌≡◌, refl, subst, Bool, false, Option, none, some, List, get, insert, get-insert_other, text_eq,
}
use transmitic_core.AppAggregator.{
  Text, AppAggMessage, State, SingleDownloadState, SingleUploadState, Next, goes_on, exits, update,
  on_invalid_file, new_invalid_file, on_in_progress, new_in_progress, on_completed, new_completed,
  on_offline, on_offline_error, default, app_step, invalid_file, in_progress, completed, offline,
  offline_error, upload_state_change, upload_disconnected, log_debug, log_info, log_warning,
  log_error, log_critical, set_log_level, log_to_file_state, upload_error_generic,
  upload_error_port_in_use, reverse_connection, app_failed_kill,
}
use transmitic_core.AppAggregator.Downloads.{get-update_other}
use transmitic_core.AppAggregator.History.{Holds}

-- The message is about the nickname.
unfoldable pub names : {Connection : Type 0} → AppAggMessage Connection → Text → Bool
names (invalid_file f) nickname = text_eq f.nickname nickname
names (in_progress f) nickname = text_eq f.nickname nickname
names (completed f) nickname = text_eq f.nickname nickname
names (offline f) nickname = text_eq f.nickname nickname
names (offline_error f) nickname = text_eq f.nickname nickname
names (upload_state_change f) nickname = text_eq f.nickname nickname
names (upload_disconnected name) nickname = text_eq name nickname
names m nickname = false

-- Both maps hold at the nickname what they held.
abbrev pub IsSameAt : {Downloader : Type 0} → Text → State Downloader → State Downloader → Type 0
IsSameAt nickname s s' =
    (get s'.download_state nickname ≡ get s.download_state nickname)
    × (get s'.upload_state nickname ≡ get s.upload_state nickname)

disconnected_other :
    (m : List (Text × SingleUploadState)) (k j : Text)
    → text_eq k j ≡ false
    → get
        (elim (get m k) [ some state ↦ insert m k (record state { is_online = false }) | none ↦ m ])
        j
      ≡ get m j
disconnected_other m k j other = go (get m k)
  where
    go :
        (o : Option SingleUploadState)
        → get (elim o [ some state ↦ insert m k (record state { is_online = false }) | none ↦ m ]) j
          ≡ get m j
    go none = refl
    go (some state) = get-insert_other m k j (record state { is_online = false }) other

module _ {Connection Downloader : Type 0}
    (start_downloading_single_user : Connection → Downloader → Downloader)
    (secs : Option Text) where
  others_kept :
      (s : State Downloader) (m : AppAggMessage Connection) (nickname : Text)
      → names m nickname ≡ false
      → Holds (IsSameAt nickname s) (app_step start_downloading_single_user secs s m)
  unfolding app_step names transmitic_core.AppAggregator.log_message
  others_kept s (invalid_file f) nickname h = (
    get-update_other s.download_state f.nickname nickname (on_invalid_file f) (new_invalid_file f)
        h,
    refl,
  )
  others_kept s (in_progress f) nickname h = (
    get-update_other s.download_state f.nickname nickname (on_in_progress f) (new_in_progress f) h,
    refl,
  )
  others_kept s (completed f) nickname h = (
    get-update_other s.download_state f.nickname nickname (on_completed f) (new_completed f) h,
    refl,
  )
  others_kept s (offline f) nickname h = (
    get-update_other s.download_state f.nickname nickname (on_offline f) (on_offline f default) h,
    refl,
  )
  others_kept s (offline_error f) nickname h = (
    get-update_other s.download_state f.nickname nickname (on_offline_error f)
        (on_offline_error f default) h,
    refl,
  )
  others_kept s (upload_state_change f) nickname h =
      (refl, get-insert_other s.upload_state f.nickname nickname f h)
  others_kept s (upload_disconnected name) nickname h =
      (refl, disconnected_other s.upload_state name nickname h)
  others_kept s (log_debug x) nickname h = (refl, refl)
  others_kept s (log_info x) nickname h = (refl, refl)
  others_kept s (log_warning x) nickname h = (refl, refl)
  others_kept s (log_error x) nickname h = (refl, refl)
  others_kept s (log_critical x) nickname h = (refl, refl)
  others_kept s (set_log_level x) nickname h = (refl, refl)
  others_kept s (log_to_file_state x) nickname h = (refl, refl)
  others_kept s (upload_error_generic x) nickname h = (refl, refl)
  others_kept s upload_error_port_in_use nickname h = (refl, refl)
  others_kept s (reverse_connection x) nickname h = (refl, refl)
  others_kept s (app_failed_kill x) nickname h = tt

  -- A step that does not end the process leaves both maps as they were at every nickname that
  -- the message is not about.
  pub app_step-IsSameAt :
      (s s' : State Downloader) (m : AppAggMessage Connection) (nickname : Text)
      → app_step start_downloading_single_user secs s m ≡ goes_on s'
      → names m nickname ≡ false
      → IsSameAt nickname s s'
  app_step-IsSameAt s s' m nickname e h =
      subst (Holds (IsSameAt nickname s)) e (others_kept s m nickname h)
