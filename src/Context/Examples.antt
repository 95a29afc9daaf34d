-- ===== src/Context/Examples.antt =====
-- Concrete rows of the tables of multinexus/context/store.py.
use multinexus.Base.{ℕ, ◌≤◌, ◌≡◌, refl, false, none, some, List, [], ◌∷◌, length, All, ◌⊎◌}
use multinexus.Base.Text.{codes}
use multinexus.Context.{Reply, Message, pending}
use multinexus.Context.Outbox.{find_reply, acknowledged, mark_runtime_reply_sent}
use multinexus.Context.Delivery.{OutboxCall, recording, attempting, sending, run_calls, sent_once}
use multinexus.Context.Messages.{recent_messages}
use multinexus.Context.Window.{IsWanted, total_len, recent_messages_lem}

abbrev job : List ℕ
job = codes "job-7"

abbrev same : List ℕ → List ℕ
same s = s

abbrev reply : Reply
reply = record {
  job_id = job;
  workspace_id = codes "w";
  platform = codes "kook";
  destination_id = codes "9";
  quote_message_id = [];
  created_at_ms = 100;
  status = pending;
  attempts = 0;
  last_error_code = [];
  sent_at_ms = none;
}

abbrev later_calls : List OutboxCall
later_calls =
    attempting job (codes "timeout")
    ∷ recording job (codes "w") (codes "kook") (codes "9") [] 300
    ∷ sending job 400
    ∷ []

reply_found : find_reply job (reply ∷ []) ≡ some reply
unfolding find_reply
reply_found = refl

sent_once_example :
    find_reply job (run_calls same later_calls (mark_runtime_reply_sent job 200 (reply ∷ [])))
    ≡ some (acknowledged 200 reply)
sent_once_example = sent_once same later_calls job 200 (reply ∷ []) reply reply_found refl

abbrev message : Message
message = record {
  context_order = 1;
  message_id = codes "m1";
  channel_id = codes "c";
  author_id = codes "a";
  author_name = codes "Ann";
  author_is_bot = false;
  content = codes "hello";
  created_at_ms = 5000;
  source = codes "discord";
}

recent_messages_lem_example :
    let window = recent_messages 6000 (codes "c") (codes "m2") 5 200 60 (message ∷ []) in
    (length window ≤ 5)
    × ((length window ≤ 1) ⊎ (total_len window ≤ 200))
    × All (IsWanted 6000 (codes "c") (codes "m2") 60) window
recent_messages_lem_example =
    recent_messages_lem 6000 (codes "c") (codes "m2") 5 200 60 (message ∷ [])
