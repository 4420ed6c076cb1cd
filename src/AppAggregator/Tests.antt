-- ===== src/AppAggregator/Tests.antt =====
-- The theorems about src/app_aggregator.rs, at a run of three messages.
use transmitic_core.Common.{
  ℕ, ◌≡◌, refl, Bool, true, false, Option, none, some, List, [], ◌∷◌, ◌++◌,
}
use transmitic_core.Logger.{LogLevel, new}
use transmitic_core.AppAggregator.{
  Text, AppAggMessage, State, CompletedMessage, goes_on, app_step, completed, invalid_file, offline,
}
use transmitic_core.AppAggregator.History.{
  app_loop, all_in, completed_in, invalid_in, completed_of, invalid_of, app_loop-history,
}
use transmitic_core.AppAggregator.Isolation.{IsSameAt, app_step-IsSameAt}

-- A connection is a number, and the downloader keeps those that it was given.
abbrev start : ℕ → List ℕ → List ℕ
start stream guard = stream ∷ guard

abbrev ann : Text
ann = b'a' ∷ []

abbrev bob : Text
bob = b'b' ∷ []

abbrev finished : CompletedMessage
finished = record {
  nickname = ann;
  path = b'f' ∷ [];
  download_queue = [];
  path_local_disk = b'g' ∷ [];
  size_string = [];
}

abbrev message : AppAggMessage ℕ
message = completed finished

abbrev messages : List (Option Text × AppAggMessage ℕ)
messages =
    (none, message)
    ∷ (
      none,
      invalid_file (record {
        nickname = ann;
        active_path = none;
        invalid_path = b'h' ∷ [];
        download_queue = [];
        message = [];
      }),
    )
    ∷ (none, offline (record { nickname = bob; download_queue = bob ∷ [] }))
    ∷ []

abbrev start_state : State (List ℕ)
start_state = record {
  download_state = [];
  upload_state = [];
  logger = new LogLevel.error false (record { failure = none; file_lines = [] });
  incoming_uploader_error = none;
  outgoing_downloader = [];
}

state_of : transmitic_core.AppAggregator.Next (State (List ℕ)) → State (List ℕ)
state_of (goes_on s) = s
state_of (transmitic_core.AppAggregator.exits code) = start_state

abbrev after_one : State (List ℕ)
after_one = state_of (app_step start none start_state message)

abbrev after_all : State (List ℕ)
after_all = state_of (app_loop start start_state messages)

one_goes_on : app_step start none start_state message ≡ goes_on after_one
unfolding app_step state_of
one_goes_on = refl

all_go_on : app_loop start start_state messages ≡ goes_on after_all
unfolding app_loop app_step state_of
all_go_on = refl

not_bob : transmitic_core.AppAggregator.Isolation.names message bob ≡ false
unfolding transmitic_core.AppAggregator.Isolation.names transmitic_core.Common.text_eq
not_bob = refl

app_loop-history_example :
    (completed_of after_all ann
      ≡ completed_of start_state ann ++ all_in (completed_in ann) messages)
    × (invalid_of after_all ann ≡ invalid_of start_state ann ++ all_in (invalid_in ann) messages)
app_loop-history_example = app_loop-history start start_state after_all messages ann all_go_on

app_step-IsSameAt_example : IsSameAt bob start_state after_one
app_step-IsSameAt_example =
    app_step-IsSameAt start none start_state after_one message bob one_goes_on not_bob
