-- ===== src/Tests/EditorRuns.antt =====
-- internal/ui/highlight.go and complete.go at concrete inputs.
use d9s.Base.{
  ◌↔◌, ◌≡◌, ◌<◌, ◌≤◌, refl, true, false, [], ◌∷◌, List, none, Bytes, codes, arith, length, to_lower,
  equal, fields, has_prefix, contains,
}
use d9s.Config.Connection.{contains_text}
use d9s.Config.Net.{last_index_byte}
use d9s.Editor.{span_kind_of, spans_in}
use d9s.Editor.Covered.{Chain, shade, paint, spans_in-Chain}
use d9s.Complete.{
  completion_request_at, redis_request_at, redis_line_at, redis_arg_in, split_while, redis_argument,
}
use d9s.Complete.Words.{redis_commands}
use d9s.Complete.Candidates.{
  rank_candidates, pick, sort_texts, insert_text, less_text, is_prefixed, is_contained,
  completion_candidates, shared_prefix, completion_max_items,
}
use d9s.Complete.Ranked.{Pairwise, ahead, rank_candidates-Pairwise}
use d9s.Complete.Offered.{IsOffered, rank_candidates-IsOffered}
use d9s.Complete.Popup.{
  Query, closed_popup, start_completion, complete_request, is_none_here, answer_request, offer,
}
use d9s.Complete.Popup.Selected.{fresh, next, starts, popup-IsSelecting}
use d9s.Schema.{Cache, new_cache, ready}
use d9s.Script.Token.{postgres, redis}
use d9s.Script.Tokens.{tokenize}

abbrev reserved : List Bytes
reserved = codes "SELECT" ∷ []

spans_in-Chain_example :
    Chain (spans_in (span_kind_of reserved) (tokenize postgres (codes "SELECT 1")) 0 8) 0 8
    × (shade (spans_in (span_kind_of reserved) (tokenize postgres (codes "SELECT 1")) 0 8) 7
        ≡ paint (span_kind_of reserved) (tokenize postgres (codes "SELECT 1")) 7)
spans_in-Chain_example =
    spans_in-Chain (span_kind_of reserved) postgres (codes "SELECT 1") 0 8 7 (omega arith)
      (omega arith)

-- A cache with the scan of every key, of which there are two.
abbrev keys : List Bytes
keys = codes "user:1" ∷ codes "zed" ∷ []

abbrev scanned : Cache
scanned = record new_cache { cols = ([], record { names = keys; state = ready }) ∷ [] }

abbrev names : List Bytes
names = codes "orders" ∷ codes "bus" ∷ codes "users" ∷ codes "user_id" ∷ codes "users" ∷ []

rank_candidates-Pairwise_example :
    Pairwise (ahead (to_lower (codes "us"))) (rank_candidates names (codes "us"))
    × (length (rank_candidates names (codes "us")) ≤ completion_max_items)
rank_candidates-Pairwise_example = rank_candidates-Pairwise names (codes "us")

ranked_run : rank_candidates names (codes "us") ≡ codes "user_id" ∷ codes "users" ∷ codes "bus" ∷ []
unfolding rank_candidates pick sort_texts insert_text less_text is_prefixed is_contained has_prefix
    contains to_lower equal contains_text
ranked_run = refl

few : length (rank_candidates names (codes "us")) < completion_max_items
few = rw ranked_run (omega arith)

rank_candidates-IsOffered_example :
    (contains_text (rank_candidates names (codes "us")) (codes "bus") ≡ true)
    ↔ IsOffered names (codes "us") (codes "bus")
rank_candidates-IsOffered_example = rank_candidates-IsOffered names (codes "us") (codes "bus") few

abbrev screen : Query
screen = record {
  engine = redis;
  connected = true;
  running = false;
  inflight = false;
  focused = true;
  cache = new_cache;
  comp = closed_popup;
  status = none;
  typed = [];
  started = [];
}

-- Tab behind GETE offers one command, and behind ZRA three of them.
abbrev offered : Query
offered = start_completion (codes "ZRA") 3 screen

offered_run :
    (offered.comp.is_open ≡ true) × (offered.comp.pending ≡ false) × (length offered.comp.items ≡ 3)
unfolding start_completion complete_request completion_request_at redis_request_at redis_line_at
    redis_arg_in split_while redis_argument redis_commands completion_candidates answer_request
    offer rank_candidates pick sort_texts insert_text less_text is_prefixed is_contained has_prefix
    contains to_lower equal contains_text is_none_here fields last_index_byte shared_prefix
offered_run = (refl, refl, refl)

popup-IsSelecting_example : offered.comp.sel < length offered.comp.items
popup-IsSelecting_example =
    popup-IsSelecting (next (fresh screen refl) (starts (codes "ZRA") 3 screen)) offered_run.0
      offered_run.1
