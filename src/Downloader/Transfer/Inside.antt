-- ===== src/Downloader/Transfer/Inside.antt =====
-- Which files a download of src/outgoing_downloader.rs changes.
use transmitic_core.Common.{
  ℕ, ◌≡◌, ◌≢◌, refl, sym, ap, ◌∙◌, subst, true, false, Bool-cases, Option-cases, inl, inr, Option,
  List, [], ◌∷◌, ◌++◌, Outcome, ok, err, panic, get, insert, get-insert_other, get-remove_other,
  text_eq, text_eq→eq, is_empty,
}
use transmitic_core.Common.Actions.{Leads, then_do, then_do-Leads, if-Leads, lift, ◌>>=◌}
use transmitic_core.Stream.Sealing.{Cipher}
use transmitic_core.SharedFile.{SharedFile, shared_file, Files, nil, cons, SizeFormat}
use transmitic_core.AppAggregator.{Text}
use transmitic_core.Downloader.{SingleDownloader, Host, Download, DownloadError, write_file}
use transmitic_core.Downloader.QueueFile.{write_queue, write_queue_file}
use transmitic_core.Downloader.Receiver.{read_receiver}
use transmitic_core.Downloader.Names.{get_sanitized_disk_file_name}
use transmitic_core.Downloader.Names.Safe.{IsName, get_sanitized_disk_file_name-IsName}
use transmitic_core.Downloader.Transfer.Kept.{download_file-Leads, read_receiver-Leads}
use transmitic_core.Downloader.Transfer.{download_shared_file, download_files}

-- A file in the directory, whose text ends in a slash, or at any depth below it: directories and
-- file have names that stand for one entry each.
pub data IsBelow : Text → Text → Type 0 where
  here : {dir n : Text} → IsName n → IsBelow dir (dir ++ n)
  within :
      {dir n path : Text} → IsName n → IsBelow (dir ++ (n ++ (b'/' ∷ []))) path → IsBelow dir path

-- The queue file is at `queue_file`, and `path` holds `content`.
abbrev Same : Text → Text → Option (List ℕ) → SingleDownloader → Type 0
Same queue_file path content d = (d.path_queue_file ≡ queue_file) × (get d.disk path ≡ content)

eq_test : (s t : Text) → s ≢ t → text_eq s t ≡ false
eq_test s t h = elim (Bool-cases (text_eq s t)) [
  | inl e ↦ absurd (h (text_eq→eq s t e))
  | inr e ↦ e
]

module _ (host : Host) (queue_file path : Text) (content : Option (List ℕ))
    (other : queue_file ≢ path) where
  abbrev IsSame : SingleDownloader → Type 0
  IsSame = Same queue_file path content

  write_file-Same :
      (at : Text) (bytes : List ℕ) → at ≢ path → Leads IsSame IsSame (write_file host at bytes)
  unfolding write_file
  write_file-Same at bytes h d same = elim (Bool-cases (host.writable at)) [
    | inl w ↦ rw w (same.0, get-insert_other d.disk at path bytes (eq_test at path h) ∙ same.1)
    | inr w ↦ rw w same
  ]

  queue_other : (d : SingleDownloader) → IsSame d → d.path_queue_file ≢ path
  queue_other d same e = other (sym same.0 ∙ e)

  write_queue_file-Same : Leads IsSame IsSame (write_queue_file host)
  unfolding write_queue_file
  write_queue_file-Same d same = write_file-Same d.path_queue_file _ (queue_other d same) d same

  write_queue-Same : Leads IsSame IsSame (write_queue host)
  unfolding write_queue
  write_queue-Same d same = elim (Bool-cases (is_empty d.download_queue)) [
    | inr filled ↦ rw filled (write_queue_file-Same d same)
    | inl bare ↦ elim (Option-cases (get d.disk d.path_queue_file)) [
      | inl missing ↦ rw (bare, missing) same
      | inr (text, there) ↦ elim (Option-cases (host.remove_error d.path_queue_file)) [
        | inl removed ↦
            rw (bare, there, removed)
              (
                same.0,
                get-remove_other d.disk d.path_queue_file path
                      (eq_test d.path_queue_file path (queue_other d same))
                    ∙ same.1,
              )
        | inr (e, kept) ↦
            rw (bare, there, kept)
              (then_do-Leads {Q = IsSame} (write_queue_file host d) _ (write_queue_file-Same d same)
                (λ _ d h. h))
      ]
    ]
  ]

  queue_kept :
      (d d' : SingleDownloader)
      → d'.disk ≡ d.disk
      → d'.path_queue_file ≡ d.path_queue_file
      → IsSame d
      → IsSame d'
  queue_kept d d' disk at same = (at ∙ same.0, ap (λ m. get m path) disk ∙ same.1)

  written-Same :
      (destination : Text)
      → destination ≢ path
      → (bytes : List ℕ) (d : SingleDownloader) → IsSame d
      → IsSame (record d { disk = insert d.disk destination bytes })
  written-Same destination away bytes d same = (
    same.0,
    get-insert_other d.disk destination path bytes (eq_test destination path away) ∙ same.1,
  )

  away_from : {dir n : Text} → ¬ IsBelow dir path → IsName n → dir ++ n ≢ path
  away_from {dir} outside name e = outside (subst (IsBelow dir) e (here name))

  module _ (cipher : Cipher) (format : SizeFormat) where
    name_step :
        (file : SharedFile) (f : Text → Download (Unit {0}))
        → ((n : Text) → IsName n → Leads IsSame IsSame (f n))
        → Leads IsSame IsSame (lift (get_sanitized_disk_file_name file) >>= f)
    name_step file f h d same = go (get_sanitized_disk_file_name file) refl
      where
        go :
            (r : Outcome DownloadError Text)
            → get_sanitized_disk_file_name file ≡ r
            → IsSame (then_do (d, r) f).0
        go (ok n) e = h n (get_sanitized_disk_file_name-IsName file n e) d same
        go (err x) e = same
        go panic e = same

    mutual
      unfolding download_shared_file download_files

      download_shared_file-Same :
          (file : SharedFile) (dir : Text)
          → ¬ IsBelow dir path
          → Leads IsSame IsSame (download_shared_file cipher host format file dir)
      download_shared_file-Same (shared_file p true fs size string) dir outside =
          name_step (shared_file p true fs size string) _ λ n name.
            download_files-Same fs (dir ++ (n ++ (b'/' ∷ [])))
              (λ below. outside (within name below))
      download_shared_file-Same (shared_file p false fs size string) dir outside =
          name_step (shared_file p false fs size string) _ λ n name.
            download_file-Leads host IsSame queue_kept write_queue-Same cipher format (dir ++ n)
              (written-Same (dir ++ n) (away_from outside name))
              (shared_file p false fs size string) dir

      download_files-Same :
          (fs : Files) (dir : Text)
          → ¬ IsBelow dir path
          → Leads IsSame IsSame (download_files cipher host format fs dir)
      download_files-Same nil dir outside = λ d h. h
      download_files-Same (cons f fs) dir outside = λ d h.
          then_do-Leads {Q = IsSame} (download_shared_file cipher host format f dir d) _
            (download_shared_file-Same f dir outside d h)
            λ _ d h.
              then_do-Leads {Q = IsSame} (read_receiver host d) _
                (read_receiver-Leads host IsSame queue_kept write_queue-Same d h)
                λ _ d.
                  if-Leads IsSame d.stop_downloading _ _ (λ d h. h)
                    (download_files-Same fs dir outside) d

-- Whatever the peer sends and however the download ends, a file is as it was if it is neither the
-- queue file nor a file below the download directory with names, free of slashes, backslashes and
-- NULs and neither `.` nor `..`, on the way to it.
pub download_shared_file-outside :
    (cipher : Cipher) (host : Host) (format : SizeFormat) (file : SharedFile)
    (download_dir path : Text) (d : SingleDownloader)
    → d.path_queue_file ≢ path
    → ¬ IsBelow download_dir path
    → get (download_shared_file cipher host format file download_dir d).0.disk path
      ≡ get d.disk path
download_shared_file-outside cipher host format file download_dir path d other outside =
    (download_shared_file-Same host d.path_queue_file path (get d.disk path) other cipher format
      file download_dir outside d (refl, refl)).1
