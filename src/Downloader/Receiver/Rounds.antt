-- ===== src/Downloader/Receiver/Rounds.antt =====
-- The loop of `read_receiver` of src/outgoing_downloader.rs, for any predicate on its states.
use transmitic_core.Common.{true, some, List, [], ◌∷◌, All}
use transmitic_core.Common.Actions.{
  TryRecv, value, empty, disconnected, Leads, then_do-Leads, bind-Leads,
}
use transmitic_core.Uploader.{OwnedStream}
use transmitic_core.Downloader.{
  SingleDownloader, MessageSingleDownloader, MessageRevSingleDownloader, new_connection, Host,
}
use transmitic_core.Downloader.Receiver.{poll_reverse, on_message, poll_loop}

module _ (Q : SingleDownloader → Type 0) where
  pub poll_reverse-Leads :
      ((d : SingleDownloader) (polls : List (TryRecv MessageRevSingleDownloader))
        → Q d
        → Q (record d { rev_polls = polls }))
      → ((d : SingleDownloader) (polls : List (TryRecv MessageRevSingleDownloader))
            (enc : OwnedStream)
          → Q d
          → Q (record d {
            rev_polls = polls;
            stop_downloading = true;
            reverse_connection = some enc;
          }))
      → Leads Q Q poll_reverse
  unfolding poll_reverse
  poll_reverse-Leads quiet found d h =
      elim (d.rev_polls)
          as (λ polls.
            Q (record d { rev_polls = polls })
            → Q (poll_reverse (record d { rev_polls = polls })).0) [
              | [] ↦ λ h. h
              | value (new_connection enc) ∷ polls ↦ λ h. found d polls enc (quiet _ d.rev_polls h)
              | empty ∷ polls ↦ λ h. quiet d polls (quiet _ d.rev_polls h)
              | disconnected ∷ polls ↦ λ h. h
            ]
        h

  module _ (host : Host) where
    -- What the predicate must bear of a poll.
    abbrev pub Bears : TryRecv MessageSingleDownloader → Type 0
    Bears (value m) = Leads Q Q (on_message host m)
    Bears _ = Unit {0}

    pub poll_loop-Leads :
        ((d : SingleDownloader) (polls : List (TryRecv MessageSingleDownloader))
          → Q d
          → Q (record d { polls = polls }))
        → Leads Q Q poll_reverse
        → (polls : List (TryRecv MessageSingleDownloader)) → All Bears polls
        → Leads Q Q (poll_loop host polls)
    unfolding poll_loop
    poll_loop-Leads quiet reverse [] bears =
        bind-Leads {P = Q} {Q = Q} poll_reverse _ reverse (λ _ d h. quiet d [] h)
    poll_loop-Leads quiet reverse (empty ∷ polls) bears =
        bind-Leads {P = Q} {Q = Q} poll_reverse _ reverse (λ _ d h. quiet d polls h)
    poll_loop-Leads quiet reverse (disconnected ∷ polls) bears =
        bind-Leads {P = Q} {Q = Q} poll_reverse _ reverse
          (λ _ d h. quiet d (disconnected ∷ polls) h)
    poll_loop-Leads quiet reverse (value m ∷ polls) bears =
        bind-Leads {P = Q} {Q = Q} poll_reverse _ reverse (λ _ d h.
          then_do-Leads {Q = Q} (on_message host m (record d { polls = polls }))
            (λ _. poll_loop host polls) (bears.0 _ (quiet d polls h))
            (λ _. poll_loop-Leads quiet reverse polls bears.1))

    -- A predicate that bears every message.
    pub poll_loop-Leads_all :
        ((d : SingleDownloader) (polls : List (TryRecv MessageSingleDownloader))
          → Q d
          → Q (record d { polls = polls }))
        → Leads Q Q poll_reverse
        → ((m : MessageSingleDownloader) → Leads Q Q (on_message host m))
        → (polls : List (TryRecv MessageSingleDownloader)) → Leads Q Q (poll_loop host polls)
    poll_loop-Leads_all quiet reverse bears polls = poll_loop-Leads quiet reverse polls (go polls)
      where
        go : (polls : List (TryRecv MessageSingleDownloader)) → All Bears polls
        go [] = tt
        go (value m ∷ polls) = (bears m, go polls)
        go (empty ∷ polls) = (tt, go polls)
        go (disconnected ∷ polls) = (tt, go polls)
