-- ===== src/AppAggregator/History.antt =====
-- The history of a run of `app_loop`: what the lists of finished downloads hold at the end.
use transmitic_core.Common.{
  ◌≡◌, refl, ap, sym, ◌∙◌, Bool, true, false, Option, List, [], ◌∷◌, ◌++◌, append-nil, append_assoc,
  if◌then◌else◌, text_eq,
}
use transmitic_core.AppAggregator.{
  Text, AppAggMessage, State, SingleDownloadState, CompletedMessage, InvalidResult, Next, goes_on,
  exits, update, on_invalid_file, new_invalid_file, on_in_progress, new_in_progress, on_completed,
  new_completed, on_offline, on_offline_error, default, app_step, invalid_file, in_progress,
  completed, offline, offline_error, upload_state_change, upload_disconnected, log_debug, log_info,
  log_warning, log_error, log_critical, set_log_level, log_to_file_state, upload_error_generic,
  upload_error_port_in_use, reverse_connection, app_failed_kill,
}
use transmitic_core.AppAggregator.Downloads.{view, view-update}

-- The rounds of the loop, up to the end of the messages or an exit.
module _ {Connection Downloader : Type 0}
    (start_downloading_single_user : Connection → Downloader → Downloader) where
  unfoldable pub app_loop :
      State Downloader → List (Option Text × AppAggMessage Connection) → Next (State Downloader)
  app_loop s [] = goes_on s
  app_loop s (m ∷ ms) = elim (app_step start_downloading_single_user (m.0) s (m.1)) [
    | goes_on s' ↦ app_loop s' ms
    | exits code ↦ exits code
  ]

module _ {Connection : Type 0} where
  -- What a message adds to the finished downloads of a nickname.
  unfoldable pub completed_in : Text → AppAggMessage Connection → List CompletedMessage
  completed_in nickname (completed f) = if text_eq f.nickname nickname then f ∷ [] else []
  completed_in nickname m = []

  unfoldable pub invalid_in : Text → AppAggMessage Connection → List InvalidResult
  invalid_in nickname (invalid_file f) =
      if text_eq f.nickname nickname
      then record { path = f.invalid_path; message = f.message } ∷ []
      else []
  invalid_in nickname m = []

  -- The same over all messages, in order.
  unfoldable pub all_in :
      {B : Type 0}
      → (AppAggMessage Connection → List B)
      → List (Option Text × AppAggMessage Connection)
      → List B
  all_in part [] = []
  all_in part (m ∷ ms) = part (m.1) ++ all_in part ms

either {ℓ} : {A : Type ℓ} (b : Bool) (a : A) → (if b then a else a) ≡ a
either true a = refl
either false a = refl

-- A part that nothing is added to.
same_view {ℓ} :
    {V : Type ℓ} {B : Type 0} (part : V → List B) (m : List (Text × V)) (k j : Text)
    (change : V → V) (fresh : V)
    → ((h : V) → part (change h) ≡ part h)
    → part fresh ≡ []
    → view part (update m k change fresh) j ≡ view part m j ++ []
same_view part m k j change fresh keeps starts =
    view-update part m k j change fresh [] (λ h. keeps h ∙ sym (append-nil (part h))) starts
    ∙ ap (λ l. view part m j ++ l) (either (text_eq k j) [])

-- A state that the loop goes on with.
abbrev pub Holds : {S : Type 0} → (S → Type 0) → Next S → Type 0
Holds P (goes_on s) = P s
Holds P (exits code) = Unit

-- The finished downloads of a nickname, and the refused ones.
abbrev pub completed_of : {Downloader : Type 0} → State Downloader → Text → List CompletedMessage
completed_of s nickname = view (λ h. h.completed_downloads) s.download_state nickname

abbrev pub invalid_of : {Downloader : Type 0} → State Downloader → Text → List InvalidResult
invalid_of s nickname = view (λ h. h.invalid_downloads) s.download_state nickname

module _ {Connection Downloader : Type 0}
    (start_downloading_single_user : Connection → Downloader → Downloader)
    (secs : Option Text) where
  completed_step :
      (s : State Downloader) (m : AppAggMessage Connection) (nickname : Text)
      → Holds
          (λ s'. completed_of s' nickname ≡ completed_of s nickname ++ completed_in nickname m)
          (app_step start_downloading_single_user secs s m)
  unfolding app_step completed_in transmitic_core.AppAggregator.log_message on_invalid_file
      new_invalid_file on_in_progress new_in_progress on_completed new_completed on_offline
      on_offline_error
  completed_step s (invalid_file f) nickname =
      same_view (λ h. h.completed_downloads) s.download_state f.nickname nickname
        (on_invalid_file f) (new_invalid_file f) (λ h. refl) refl
  completed_step s (in_progress f) nickname =
      same_view (λ h. h.completed_downloads) s.download_state f.nickname nickname (on_in_progress f)
        (new_in_progress f) (λ h. refl) refl
  completed_step s (completed f) nickname =
      view-update (λ h. h.completed_downloads) s.download_state f.nickname nickname (on_completed f)
        (new_completed f) (f ∷ []) (λ h. refl) refl
  completed_step s (offline f) nickname =
      same_view (λ h. h.completed_downloads) s.download_state f.nickname nickname (on_offline f)
        (on_offline f default) (λ h. refl) refl
  completed_step s (offline_error f) nickname =
      same_view (λ h. h.completed_downloads) s.download_state f.nickname nickname
        (on_offline_error f) (on_offline_error f default) (λ h. refl) refl
  completed_step s (log_debug x) nickname = sym (append-nil (completed_of s nickname))
  completed_step s (log_info x) nickname = sym (append-nil (completed_of s nickname))
  completed_step s (log_warning x) nickname = sym (append-nil (completed_of s nickname))
  completed_step s (log_error x) nickname = sym (append-nil (completed_of s nickname))
  completed_step s (log_critical x) nickname = sym (append-nil (completed_of s nickname))
  completed_step s (set_log_level x) nickname = sym (append-nil (completed_of s nickname))
  completed_step s (log_to_file_state x) nickname = sym (append-nil (completed_of s nickname))
  completed_step s (upload_state_change x) nickname = sym (append-nil (completed_of s nickname))
  completed_step s (upload_disconnected x) nickname = sym (append-nil (completed_of s nickname))
  completed_step s (upload_error_generic x) nickname = sym (append-nil (completed_of s nickname))
  completed_step s upload_error_port_in_use nickname = sym (append-nil (completed_of s nickname))
  completed_step s (reverse_connection x) nickname = sym (append-nil (completed_of s nickname))
  completed_step s (app_failed_kill x) nickname = tt

  invalid_step :
      (s : State Downloader) (m : AppAggMessage Connection) (nickname : Text)
      → Holds
          (λ s'. invalid_of s' nickname ≡ invalid_of s nickname ++ invalid_in nickname m)
          (app_step start_downloading_single_user secs s m)
  unfolding app_step invalid_in transmitic_core.AppAggregator.log_message on_invalid_file
      new_invalid_file on_in_progress new_in_progress on_completed new_completed on_offline
      on_offline_error
  invalid_step s (invalid_file f) nickname =
      view-update (λ h. h.invalid_downloads) s.download_state f.nickname nickname
        (on_invalid_file f) (new_invalid_file f)
        (record { path = f.invalid_path; message = f.message } ∷ []) (λ h. refl) refl
  invalid_step s (in_progress f) nickname =
      same_view (λ h. h.invalid_downloads) s.download_state f.nickname nickname (on_in_progress f)
        (new_in_progress f) (λ h. refl) refl
  invalid_step s (completed f) nickname =
      same_view (λ h. h.invalid_downloads) s.download_state f.nickname nickname (on_completed f)
        (new_completed f) (λ h. refl) refl
  invalid_step s (offline f) nickname =
      same_view (λ h. h.invalid_downloads) s.download_state f.nickname nickname (on_offline f)
        (on_offline f default) (λ h. refl) refl
  invalid_step s (offline_error f) nickname =
      same_view (λ h. h.invalid_downloads) s.download_state f.nickname nickname (on_offline_error f)
        (on_offline_error f default) (λ h. refl) refl
  invalid_step s (log_debug x) nickname = sym (append-nil (invalid_of s nickname))
  invalid_step s (log_info x) nickname = sym (append-nil (invalid_of s nickname))
  invalid_step s (log_warning x) nickname = sym (append-nil (invalid_of s nickname))
  invalid_step s (log_error x) nickname = sym (append-nil (invalid_of s nickname))
  invalid_step s (log_critical x) nickname = sym (append-nil (invalid_of s nickname))
  invalid_step s (set_log_level x) nickname = sym (append-nil (invalid_of s nickname))
  invalid_step s (log_to_file_state x) nickname = sym (append-nil (invalid_of s nickname))
  invalid_step s (upload_state_change x) nickname = sym (append-nil (invalid_of s nickname))
  invalid_step s (upload_disconnected x) nickname = sym (append-nil (invalid_of s nickname))
  invalid_step s (upload_error_generic x) nickname = sym (append-nil (invalid_of s nickname))
  invalid_step s upload_error_port_in_use nickname = sym (append-nil (invalid_of s nickname))
  invalid_step s (reverse_connection x) nickname = sym (append-nil (invalid_of s nickname))
  invalid_step s (app_failed_kill x) nickname = tt

-- Where each step adds its part to what is looked at, a run adds the parts in order.
module _ {Connection Downloader : Type 0}
    (start_downloading_single_user : Connection → Downloader → Downloader) {B : Type 0}
    (look : State Downloader → List B) (part : AppAggMessage Connection → List B)
    (adds : (secs : Option Text) (s : State Downloader) (m : AppAggMessage Connection)
      → Holds
          (λ s'. look s' ≡ look s ++ part m)
          (app_step start_downloading_single_user secs s m)) where
  run_adds :
      (s s' : State Downloader) (ms : List (Option Text × AppAggMessage Connection))
      → app_loop start_downloading_single_user s ms ≡ goes_on s'
      → look s' ≡ look s ++ all_in part ms
  unfolding app_loop all_in
  run_adds s s' [] e = ap look (same e) ∙ sym (append-nil (look s))
    where
      same : goes_on s ≡ goes_on s' → s' ≡ s
      same e = cc
  run_adds s s' (m ∷ ms) e =
      first (app_step start_downloading_single_user (m.0) s (m.1)) (adds (m.0) s (m.1))
        (λ s1. run_adds s1 s' ms) e
    where
      first :
          (next : Next (State Downloader))
          → Holds (λ s1. look s1 ≡ look s ++ part (m.1)) next
          → ((s1 : State Downloader)
              → app_loop start_downloading_single_user s1 ms ≡ goes_on s'
              → look s' ≡ look s1 ++ all_in part ms)
          → (elim next [
            | goes_on s1 ↦ app_loop start_downloading_single_user s1 ms
            | exits code ↦ exits code
          ])
            ≡ goes_on s'
          → look s' ≡ look s ++ (part (m.1) ++ all_in part ms)
      first (exits code) h after e = cc
      first (goes_on s1) h after e =
          after s1 e
          ∙ ap (λ l. l ++ all_in part ms) h
          ∙ append_assoc (look s) (part (m.1)) (all_in part ms)

module _ {Connection Downloader : Type 0}
    (start_downloading_single_user : Connection → Downloader → Downloader) where
  -- After any run of messages that does not end the process, the finished downloads of each
  -- nickname are those it had before and then those of its `Completed` messages, in order, and
  -- its refused downloads likewise those of its `InvalidFile` messages; messages of other
  -- nicknames, and all others, add nothing and take nothing away.
  pub app_loop-history :
      (s s' : State Downloader) (ms : List (Option Text × AppAggMessage Connection))
      (nickname : Text)
      → app_loop start_downloading_single_user s ms ≡ goes_on s'
      → (completed_of s' nickname ≡ completed_of s nickname ++ all_in (completed_in nickname) ms)
        × (invalid_of s' nickname ≡ invalid_of s nickname ++ all_in (invalid_in nickname) ms)
  app_loop-history s s' ms nickname e = (
    run_adds start_downloading_single_user (λ t. completed_of t nickname) (completed_in nickname)
        (λ secs t m. completed_step start_downloading_single_user secs t m nickname) s s' ms e,
    run_adds start_downloading_single_user (λ t. invalid_of t nickname) (invalid_in nickname)
        (λ secs t m. invalid_step start_downloading_single_user secs t m nickname) s s' ms e,
  )
