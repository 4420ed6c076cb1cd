-- ===== src/Downloader/QueueFile/RoundTrip.antt =====
-- The queue file of src/outgoing_downloader.rs, written and read back.
use transmitic_core.Common.{
  ℕ, ◌<◌, ◌^◌, ◌≡◌, refl, sym, ap, ap₂, ◌∙◌, true, false, Bool-cases, Option-cases, inl, inr,
  Option, none, some, List, [], ◌∷◌, ◌++◌, ◌==◌, All, All-append, ok, get, get-insert_same,
  get-remove_same, arith, append_assoc, append-nil, is_empty,
}
use transmitic_core.Common.Decimals.{
  u64_to_string, IsDigit, u64_to_string-All, parse_u64-u64_to_string,
}
use transmitic_core.Common.Actions.{then_do-Leads}
use transmitic_core.AppAggregator.{Text}
use transmitic_core.Paths.Parts.{split, split_loop}
use transmitic_core.Downloader.{SingleDownloader, DownloadQueueItem, Host, write_file}
use transmitic_core.Downloader.QueueFile.{
  queue_line, queue_text, join, lines, lines_loop, without_return, parse_line, parse_pieces,
  read_lines, initialize_download_queue, write_queue, write_queue_file,
}

-- An item whose line the file can hold: a path without a line feed, where neither the end of the
-- line nor `trim` takes anything from it.
pub record IsQueued (host : Host) (f : DownloadQueueItem) : Type 0 where
  pub fits : f.file_size < 2 ^ 64
  pub one_line : All (λ c. (c == 0x0a) ≡ false) f.path
  pub trimmed : host.trim (without_return (queue_line f)) ≡ queue_line f

split_loop-append :
    (sep : ℕ) (piece a rest : Text)
    → All (λ c. (c == sep) ≡ false) a
    → split_loop sep piece (a ++ (sep ∷ rest)) ≡ (piece ++ a) ∷ split_loop sep [] rest
unfolding split_loop
split_loop-append sep piece [] rest h = ground (arith, append-nil piece)
split_loop-append sep piece (c ∷ a) rest h =
    rw h.0 (
      split_loop-append sep (piece ++ (c ∷ [])) a rest h.1
      ∙ rw (append_assoc piece (c ∷ []) a) refl)

split_loop-cons :
    (sep : ℕ) (piece s : Text) → (p : Text) × (ps : List Text) × (split_loop sep piece s ≡ p ∷ ps)
unfolding split_loop
split_loop-cons sep piece [] = (piece, [], refl)
split_loop-cons sep piece (c ∷ s) = elim (Bool-cases (c == sep)) [
  | inl e ↦ (piece, split_loop sep [] s, rw e refl)
  | inr e ↦ rw e (split_loop-cons sep (piece ++ (c ∷ [])) s)
]

join-split_loop : (piece s : Text) → join (split_loop b':' piece s) ≡ piece ++ s
unfolding split_loop join
join-split_loop piece [] = sym (append-nil piece)
join-split_loop piece (c ∷ s) = elim (Bool-cases (c == b':')) [
  | inl e ↦
      let (p, ps, shape) = split_loop-cons b':' [] s in
      let back : join (p ∷ ps) ≡ s = ap join (sym shape) ∙ join-split_loop [] s in
      rw (e, shape)
        (ap (λ t. piece ++ (b':' ∷ t)) back
          ∙ ap (λ k. piece ++ (k ∷ s)) (let k : b':' ≡ c = ground (arith, e) in k))
  | inr e ↦ rw e (join-split_loop (piece ++ (c ∷ [])) s ∙ append_assoc piece (c ∷ []) s)
]

digits_no_colon : (s : Text) → All IsDigit s → All (λ c. (c == b':') ≡ false) s
digits_no_colon [] h = tt
digits_no_colon (c ∷ s) h = (ground (arith, h.0), digits_no_colon s h.1)

-- A line is read as the item it was written for.
parse_line-queue_line :
    (f : DownloadQueueItem) → f.file_size < 2 ^ 64 → parse_line (queue_line f) ≡ ok f
unfolding parse_line split parse_pieces
parse_line-queue_line f fits =
    let size = u64_to_string f.file_size in
    let (p, ps, shape) = split_loop-cons b':' [] f.path in
    let path_eq : join (p ∷ ps) ≡ f.path = ap join (sym shape) ∙ join-split_loop [] f.path in
    let pieces : split_loop b':' [] (queue_line f) ≡ size ∷ p ∷ ps =
      split_loop-append b':' [] size f.path (digits_no_colon size (u64_to_string-All f.file_size))
      ∙ ap (λ t. size ∷ t) shape in
    ap (parse_pieces (queue_line f)) pieces
    ∙ rw (parse_u64-u64_to_string f.file_size fits)
        (ap (λ t. ok (record { path = t; file_size = f.file_size })) path_eq)

lines_loop-append :
    (line a rest : Text)
    → All (λ c. (c == 0x0a) ≡ false) a
    → lines_loop line (a ++ (0x0a ∷ rest)) ≡ without_return (line ++ a) ∷ lines_loop [] rest
unfolding lines_loop
lines_loop-append line [] rest h = ground (arith, append-nil line)
lines_loop-append line (c ∷ a) rest h =
    rw h.0
      (lines_loop-append (line ++ (c ∷ [])) a rest h.1 ∙ rw (append_assoc line (c ∷ []) a) refl)

digits_no_feed : (s : Text) → All IsDigit s → All (λ c. (c == 0x0a) ≡ false) s
digits_no_feed [] h = tt
digits_no_feed (c ∷ s) h = (ground (arith, h.0), digits_no_feed s h.1)

queue_line_no_feed :
    (f : DownloadQueueItem)
    → All (λ c. (c == 0x0a) ≡ false) f.path
    → All (λ c. (c == 0x0a) ≡ false) (queue_line f)
queue_line_no_feed f h =
    All-append (λ c. (c == 0x0a) ≡ false) (u64_to_string f.file_size) (b':' ∷ f.path)
      (digits_no_feed (u64_to_string f.file_size) (u64_to_string-All f.file_size)) (refl, h)

append_not_empty : (s : Text) (c : ℕ) (t : Text) → is_empty (s ++ (c ∷ t)) ≡ false
append_not_empty [] c t = refl
append_not_empty (x ∷ s) c t = refl

module _ (host : Host) where
  read_lines-queue_text :
      (q : List DownloadQueueItem) (d : SingleDownloader)
      → All (IsQueued host) q
      → read_lines host (lines_loop [] (queue_text q)) d
        ≡ (record d { download_queue = d.download_queue ++ q }, ok tt)
  unfolding read_lines lines_loop queue_text
  read_lines-queue_text [] d h =
      ap (λ q. (record d { download_queue = q }, ok tt)) (sym (append-nil d.download_queue))
  read_lines-queue_text (f ∷ q) d h =
      let d' = record d { download_queue = d.download_queue ++ (f ∷ []) } in
      rw
        (
          lines_loop-append [] (queue_line f) (queue_text q) (queue_line_no_feed f h.0.one_line),
          h.0.trimmed,
          append_not_empty (u64_to_string f.file_size) b':' f.path,
          parse_line-queue_line f h.0.fits,
        )
        (read_lines-queue_text q d' h.1
          ∙ ap (λ q. (record d { download_queue = q }, ok tt))
              (append_assoc d.download_queue (f ∷ []) q))

-- What a file holds; a file that is not there counts as empty.
abbrev pub content_of : Option Text → Text
content_of none = []
content_of (some text) = text

-- The queue file stands at the path and holds the queue.
abbrev pub IsSaved : Text → SingleDownloader → Type 0
IsSaved path d =
    (d.path_queue_file ≡ path)
    × (content_of (get d.disk d.path_queue_file) ≡ queue_text d.download_queue)

queue_text-nil : (q : List DownloadQueueItem) → queue_text q ≡ [] → q ≡ []
unfolding queue_text
queue_text-nil [] h = refl
queue_text-nil (f ∷ q) h =
    absurd (true-ne-false (ap is_empty (sym h) ∙ filled (u64_to_string f.file_size)))
  where
    filled : (s : Text) → is_empty ((s ++ (b':' ∷ f.path)) ++ (0x0a ∷ queue_text q)) ≡ false
    filled [] = refl
    filled (c ∷ s) = refl

    true-ne-false : ¬ (true ≡ false)
    true-ne-false h = cc

is_empty-nil : {A : Type 0} (xs : List A) → is_empty xs ≡ true → xs ≡ []
is_empty-nil [] h = refl
is_empty-nil (x ∷ xs) h = cc

module _ (host : Host) (path : Text) (writable : host.writable path ≡ true) where
  write_queue_file-IsSaved :
      (d : SingleDownloader) → d.path_queue_file ≡ path → IsSaved path (write_queue_file host d).0
  unfolding write_queue_file write_file
  write_queue_file-IsSaved d at =
      let allowed : host.writable d.path_queue_file ≡ true = ap host.writable at ∙ writable in
      rw allowed
        (at, ap content_of (get-insert_same d.disk d.path_queue_file (queue_text d.download_queue)))

  pub write_queue-IsSaved :
      (d : SingleDownloader) → d.path_queue_file ≡ path → IsSaved path (write_queue host d).0
  unfolding write_queue queue_text
  write_queue-IsSaved d at = elim (Bool-cases (is_empty d.download_queue)) [
    | inr filled ↦ rw filled (write_queue_file-IsSaved d at)
    | inl bare ↦
        let none_left : queue_text d.download_queue ≡ [] =
          ap queue_text (is_empty-nil d.download_queue bare) in
        elim (Option-cases (get d.disk d.path_queue_file)) [
          | inl missing ↦ rw (bare, missing) (at, ap content_of missing ∙ sym none_left)
          | inr (content, there) ↦ elim (Option-cases (host.remove_error d.path_queue_file)) [
            | inl removed ↦
                rw (bare, there, removed)
                  (at, ap content_of (get-remove_same d.disk d.path_queue_file) ∙ sym none_left)
            | inr (e, kept) ↦
                rw (bare, there, kept)
                  (then_do-Leads {Q = IsSaved path} (write_queue_file host d) _
                    (write_queue_file-IsSaved d at) (λ _ d h. h))
          ]
        ]
  ]

  -- A downloader that starts anew finds the queue that was saved.
  pub initialize-IsSaved :
      (d d' : SingleDownloader)
      → IsSaved path d
      → All (IsQueued host) d.download_queue
      → host.is_utf8 (queue_text d.download_queue) ≡ true
      → d'.path_queue_file ≡ path
      → d'.disk ≡ d.disk
      → initialize_download_queue host d' ≡ (record d' { download_queue = d.download_queue }, ok tt)
  unfolding initialize_download_queue lines
  initialize-IsSaved d d' saved queued utf8 at same =
      let q = d.download_queue in
      let holds : content_of (get d'.disk d'.path_queue_file) ≡ queue_text q =
        ap₂ (λ disk file. content_of (get disk file)) same (at ∙ sym (saved.0)) ∙ saved.1 in
      elim (Option-cases (get d'.disk d'.path_queue_file)) [
        | inl missing ↦
            let bare : q ≡ [] = queue_text-nil q (sym holds ∙ ap content_of missing) in
            rw (initialize_download_queue, missing)
              (ap (λ q. (record d' { download_queue = q }, ok tt)) (sym bare))
        | inr (content, there) ↦
            let written : content ≡ queue_text q = sym (ap content_of there) ∙ holds in
            let text : host.is_utf8 content ≡ true = ap host.is_utf8 written ∙ utf8 in
            rw (initialize_download_queue, there, text, written)
              (read_lines-queue_text host q (record d' { download_queue = [] }) queued)
      ]
