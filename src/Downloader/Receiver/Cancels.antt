-- ===== src/Downloader/Receiver/Cancels.antt =====
-- A cancelled download in `read_receiver` of src/outgoing_downloader.rs.
use transmitic_core.Common.{
  ℕ, ◌≡◌, ◌≢◌, refl, sym, subst, true, Bool-cases, Option-cases, inl, inr, Option, none, some, List,
  [], ◌∷◌, ◌++◌, map, All, All-append, ok, is_empty, get, insert, text_eq, text_eq_iff,
}
use transmitic_core.Common.Actions.{
  TryRecv, value, empty, disconnected, Leads, then_do, then_do-Leads, Ends, then_do-Ends, modify,
  ◌>>◌,
}
use transmitic_core.AppAggregator.{Text}
use transmitic_core.Downloader.{
  SingleDownloader, DownloadQueueItem, MessageSingleDownloader, new_config, new_shared_user,
  new_download, cancel_all_downloads, cancel_download, pause_downloads, resume_downloads,
  remove_user, restart_connection, Host, Download, write_file, retain_other, app_update_in_progress,
}
use transmitic_core.Downloader.QueueFile.{queue_text, write_queue, write_queue_file}
use transmitic_core.Downloader.Receiver.Rounds.{Bears, poll_reverse-Leads, poll_loop-Leads}
use transmitic_core.Downloader.Receiver.{
  poll_reverse, on_message, poll_loop, read_receiver, without_active,
}

abbrev pub IsInactive : Text → Option DownloadQueueItem → Type 0
IsInactive s none = Unit {0}
IsInactive s (some p) = p.path ≢ s

-- No item of the queue has the path, nor has the active download, and the thread is told to stop
-- what it downloads.
abbrev pub IsCancelled : Text → SingleDownloader → Type 0
IsCancelled s d =
    All (λ f. f.path ≢ s) d.download_queue
    × IsInactive s d.active_download_path
    × (d.stop_downloading ≡ true)

-- The message queues nothing at the path.
abbrev pub IsOther : Text → MessageSingleDownloader → Type 0
IsOther s (new_download f) = f.path ≢ s
IsOther s _ = Unit {0}

write_queue_file-same :
    (host : Host) (d : SingleDownloader)
    → (disk : List (Text × List ℕ)) × ((write_queue_file host d).0 ≡ record d { disk = disk })
unfolding write_queue_file write_file
write_queue_file-same host d = elim (Bool-cases (host.writable d.path_queue_file)) [
  | inl w ↦ (insert d.disk d.path_queue_file (queue_text d.download_queue), rw w refl)
  | inr w ↦ (d.disk, rw w refl)
]

retain_other-All :
    (s : Text) (q : List DownloadQueueItem) → All (λ f. f.path ≢ s) (retain_other s q)
unfolding retain_other
retain_other-All s [] = tt
retain_other-All s (f ∷ q) = elim (Bool-cases (text_eq f.path s)) [
  | inl same ↦ rw same (retain_other-All s q)
  | inr other ↦ rw other (λ e. cc ((text_eq_iff f.path s).1 e, other), retain_other-All s q)
]

retain_other-kept :
    (s t : Text) (q : List DownloadQueueItem)
    → All (λ f. f.path ≢ s) q
    → All (λ f. f.path ≢ s) (retain_other t q)
unfolding retain_other
retain_other-kept s t [] h = tt
retain_other-kept s t (f ∷ q) h = elim (Bool-cases (text_eq f.path t)) [
  | inl same ↦ rw same (retain_other-kept s t q h.1)
  | inr other ↦ rw other (h.0, retain_other-kept s t q h.1)
]

without_active-IsInactive :
    (s : Text) (a : Option DownloadQueueItem) → IsInactive s (without_active s a)
without_active-IsInactive s none = tt
without_active-IsInactive s (some p) = elim (Bool-cases (text_eq p.path s)) [
  | inl same ↦ rw same tt
  | inr other ↦ rw other (λ e. cc ((text_eq_iff p.path s).1 e, other))
]

without_active-kept :
    (s t : Text) (a : Option DownloadQueueItem) → IsInactive s a → IsInactive s (without_active t a)
without_active-kept s t none h = tt
without_active-kept s t (some p) h = elim (Bool-cases (text_eq p.path t)) [
  | inl same ↦ rw same tt
  | inr other ↦ rw other h
]

module _ (host : Host) (s : Text) where
  write_queue_file-IsCancelled : Leads (IsCancelled s) (IsCancelled s) (write_queue_file host)
  write_queue_file-IsCancelled d h =
      let (disk, e) = write_queue_file-same host d in subst (IsCancelled s) (sym e) h

  -- Saving the queue changes nothing that the predicate reads.
  write_queue-IsCancelled : Leads (IsCancelled s) (IsCancelled s) (write_queue host)
  unfolding write_queue
  write_queue-IsCancelled d h = elim (Bool-cases (is_empty d.download_queue)) [
    | inr filled ↦ rw filled (write_queue_file-IsCancelled d h)
    | inl bare ↦ elim (Option-cases (get d.disk d.path_queue_file)) [
      | inl missing ↦ rw (bare, missing) h
      | inr (content, there) ↦ elim (Option-cases (host.remove_error d.path_queue_file)) [
        | inl removed ↦ rw (bare, there, removed) h
        | inr (e, kept) ↦
            rw (bare, there, kept)
              (then_do-Leads {Q = IsCancelled s} (write_queue_file host d) _
                (write_queue_file-IsCancelled d h) (λ _ d h. h))
      ]
    ]
  ]

  -- Behind a change of the queue, what saves it and then logs.
  queue_then :
      (k : Download (Unit {0})) (d : SingleDownloader)
      → IsCancelled s d
      → Leads (IsCancelled s) (IsCancelled s) k
      → IsCancelled s (then_do (write_queue host d) (λ _. k)).0
  queue_then k d h log =
      then_do-Leads {Q = IsCancelled s} (write_queue host d) (λ _. k) (write_queue-IsCancelled d h)
        (λ _. log)

  -- A cancel, from any state.
  cancel-IsCancelled :
      (d : SingleDownloader) → IsCancelled s (on_message host (cancel_download s) d).0
  unfolding on_message app_update_in_progress
  cancel-IsCancelled d =
      queue_then _ _
        (
          retain_other-All s d.download_queue,
          without_active-IsInactive s d.active_download_path,
          refl,
        )
        (λ d h. h)

  on_message-IsCancelled :
      (m : MessageSingleDownloader)
      → IsOther s m
      → Leads (IsCancelled s) (IsCancelled s) (on_message host m)
  unfolding on_message app_update_in_progress
  on_message-IsCancelled (new_download f) other d h =
      queue_then _ _
        (All-append (λ f. f.path ≢ s) d.download_queue (f ∷ []) h.0 (other, tt), h.1, h.2)
        (λ d h. h)
  on_message-IsCancelled (cancel_download t) other d h =
      queue_then _ _
        (
          retain_other-kept s t d.download_queue h.0,
          without_active-kept s t d.active_download_path h.1,
          refl,
        )
        (λ d h. h)
  on_message-IsCancelled pause_downloads other d h = (h.0, h.1, refl)
  on_message-IsCancelled resume_downloads other d h = h
  on_message-IsCancelled cancel_all_downloads other d h = queue_then _ _ (tt, tt, refl) (λ d h. h)
  on_message-IsCancelled remove_user other d h = queue_then _ _ (tt, tt, refl) (λ d h. h)
  on_message-IsCancelled (new_shared_user u) other d h = (h.0, h.1, refl)
  on_message-IsCancelled restart_connection other d h = (h.0, h.1, refl)
  on_message-IsCancelled (new_config config) other d h = (h.0, h.1, refl)

  -- What may follow a cancel in the channel.
  abbrev IsOtherPoll : TryRecv MessageSingleDownloader → Type 0
  IsOtherPoll (value m) = IsOther s m
  IsOtherPoll _ = Unit {0}

  other-Bears :
      (polls : List (TryRecv MessageSingleDownloader))
      → All IsOtherPoll polls
      → All (Bears (IsCancelled s) host) polls
  other-Bears [] other = tt
  other-Bears (value m ∷ polls) other =
      (on_message-IsCancelled m other.0, other-Bears polls other.1)
  other-Bears (empty ∷ polls) other = (tt, other-Bears polls other.1)
  other-Bears (disconnected ∷ polls) other = (tt, other-Bears polls other.1)

  poll_loop-IsCancelled :
      (polls : List (TryRecv MessageSingleDownloader))
      → All IsOtherPoll polls
      → Leads (IsCancelled s) (IsCancelled s) (poll_loop host polls)
  poll_loop-IsCancelled polls other =
      poll_loop-Leads (IsCancelled s) host (λ d polls h. h)
        (poll_reverse-Leads (IsCancelled s) (λ d polls h. h) (λ d polls enc h. (h.0, h.1, refl)))
        polls (other-Bears polls other)

  -- The part behind the poll of the reversed connections, at the cancel.
  cancel_then :
      (after : List (TryRecv MessageSingleDownloader)) (d : SingleDownloader)
      → All IsOtherPoll after
      → IsCancelled s
          (then_do (on_message host (cancel_download s) d) (λ _. poll_loop host after)).0
  cancel_then after d other =
      then_do-Leads {Q = IsCancelled s} (on_message host (cancel_download s) d)
        (λ _. poll_loop host after) (cancel-IsCancelled d) (λ _. poll_loop-IsCancelled after other)

  poll_loop-cancel :
      (before : List MessageSingleDownloader) (after : List (TryRecv MessageSingleDownloader))
      → All IsOtherPoll after
      → (d : SingleDownloader)
      → Ends
          (IsCancelled s)
          (poll_loop host (map value before ++ (value (cancel_download s) ∷ after)) d)
  unfolding poll_loop
  poll_loop-cancel [] after other d =
      then_do-Ends (IsCancelled s) (poll_reverse d)
        (λ _.
          modify (λ d. record d { polls = after })
          >> on_message host (cancel_download s)
          >> poll_loop host after)
        (λ _ d a e. cancel_then after (record d { polls = after }) other)
  poll_loop-cancel (m ∷ before) after other d =
      let polls = map value before ++ (value (cancel_download s) ∷ after) in
      then_do-Ends (IsCancelled s) (poll_reverse d)
        (λ _. modify (λ d. record d { polls = polls }) >> on_message host m >> poll_loop host polls)
        (λ _ d.
          then_do-Ends (IsCancelled s) (on_message host m (record d { polls = polls }))
            (λ _. poll_loop host polls) (λ _ d. poll_loop-cancel before after other d))

  -- A cancelled download is gone when `read_receiver` returns without an error: where the channel
  -- holds any messages, then the cancel, and behind it nothing that queues the path again, then no
  -- item of the queue and not the active download has the path, and the thread is told to stop.
  pub read_receiver-IsCancelled :
      (d : SingleDownloader) (before : List MessageSingleDownloader)
      (after : List (TryRecv MessageSingleDownloader))
      → d.polls ≡ map value before ++ (value (cancel_download s) ∷ after)
      → All IsOtherPoll after
      → (read_receiver host d).1 ≡ ok tt
      → IsCancelled s (read_receiver host d).0
  unfolding read_receiver
  read_receiver-IsCancelled d before after polls other =
      subst (λ polls. Ends (IsCancelled s) (poll_loop host polls d)) (sym polls)
        (poll_loop-cancel before after other d) tt
