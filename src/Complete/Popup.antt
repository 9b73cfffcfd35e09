-- ===== src/Complete/Popup.antt =====
-- internal/ui/complete.go: the popup of the completion and the keys it takes. The editor is its text and
-- the cursor in it, which are arguments; what a completion types into it is a value of the state, as are
-- the queries that it starts.
pub mod Selected
use d9s.Base.{
  ℕ, zero, suc, ◌+◌, ◌-◌, ◌%◌, Bool, true, false, not, ◌&&◌, ◌||◌, List, [], ◌∷◌, ◌++◌, Option,
  none, some, Bytes, codes, ltb, leb, ◌==◌, if◌then◌else◌, length, take, equal, get_elem?,
}
use d9s.Config.Connection.{contains_text}
use d9s.Complete.{
  CompletionKind, none_here, CompletionRequest, completion_request_at, redis_line_at, redis_arg_in,
  split_word_at_cursor,
}
use d9s.Complete.Candidates.{
  SchemaFetch, listing, of_table, completion_candidates, rank_candidates, shared_prefix,
}
use d9s.Complete.Quote.{quote_ident, quote_table}
use d9s.Schema.{Cache, claim_tables, claim_columns, is_busy, refresh}
use d9s.Script.Lexer.{is_word_byte}
use d9s.Script.Token.{EngineType, redis}

-- completionModel
pub record Popup : Type 0 where
  pub is_open : Bool
  pub all : List Bytes
  pub items : List Bytes
  pub sel : ℕ
  pub list_kind : CompletionKind
  pub pending : Bool
  pub hint : Bytes

-- close
abbrev pub closed_popup : Popup
closed_popup = record {
  is_open = false;
  all = [];
  items = [];
  sel = 0;
  list_kind = none_here;
  pending = false;
  hint = [];
}

-- The texts of the status line.
pub data Status : Type 0 where
  no_completions query_running schema_loading schema_refreshed : Status
  failed_with : Bytes → Status

-- What a completion types: the name before the cursor that it takes away, and the text for it.
pub record Insertion : Type 0 where
  pub removed : Bytes
  pub text : Bytes

-- The parts of the query screen that a completion reads or writes: `connected` when there is a driver,
-- `inflight` when the schema panel loads.
pub record Query : Type 0 where
  pub engine : EngineType
  pub connected : Bool
  pub running : Bool
  pub inflight : Bool
  pub focused : Bool
  pub cache : Cache
  pub comp : Popup
  pub status : Option Status
  pub typed : List Insertion
  pub started : List SchemaFetch

abbrev pub shifted : List Bytes → ℕ → Popup → Popup
shifted [] sum p = p
shifted (item ∷ items) sum p = record p { sel = sum % length (item ∷ items) }

-- move(1) and move(-1); sel stays inside the items, so that the sum is never negative.
unfoldable pub move : Bool → Popup → Popup
move forward p =
    let n = length p.items in shifted p.items (if forward then p.sel + 1 + n else p.sel + n - 1) p

-- wordAtCursor
unfoldable pub word_at_cursor : EngineType → Bytes → ℕ → Bytes
unfolding redis_arg_in redis_line_at split_word_at_cursor
word_at_cursor redis buf cursor = redis_arg_in (redis_line_at buf cursor)
word_at_cursor engine buf cursor = (split_word_at_cursor (take cursor buf)).1

-- completionText
unfoldable pub completion_text : EngineType → CompletionKind → Bytes → Bytes
unfolding quote_table quote_ident
completion_text engine kind item = elim kind [
  | CompletionKind.tables ↦ quote_table engine item
  | CompletionKind.columns ↦ quote_ident engine item
  | _ ↦ item
]

-- insertCompletion
unfoldable pub insert_completion : Bytes → ℕ → Bytes → Query → Query
unfolding word_at_cursor
insert_completion buf cursor text q = record q {
  typed = q.typed ++ record { removed = word_at_cursor q.engine buf cursor; text = text } ∷ [];
}

abbrev pub close_popup : Query → Query
close_popup q = record q { comp = closed_popup }

abbrev pub say : Status → Query → Query
say status q = record q { status = some status }

-- The loop of loadForCompletion.
unfoldable pub claim_all : List SchemaFetch → Query → Query
unfolding claim_tables claim_columns
claim_all [] q = q
claim_all (listing ∷ need) q =
    let (cache, got) = claim_tables q.cache in
    claim_all need
      (record q { cache = cache; started = if got then q.started ++ listing ∷ [] else q.started })
claim_all (of_table t ∷ need) q =
    let (cache, got) = claim_columns q.cache t in
    claim_all need (record q {
      cache = cache;
      started = if got then q.started ++ of_table t ∷ [] else q.started;
    })

-- loadForCompletion
unfoldable pub load_for_completion : List SchemaFetch → Query → Query
unfolding claim_all
load_for_completion need q =
    if q.running
    then say query_running (close_popup q)
    else if q.inflight
    then say schema_loading (close_popup q)
    else record (claim_all need q) {
      comp = record closed_popup {
        is_open = true;
        pending = true;
        hint = codes "loading schema...";
      };
    }

-- What completeRequest does with the candidates for the word.
unfoldable pub offer : Bytes → ℕ → CompletionRequest → List Bytes → List Bytes → Query → Query
unfolding insert_completion completion_text shared_prefix equal
offer buf cursor req all [] q = say no_completions (close_popup q)
offer buf cursor req all (item ∷ []) q =
    insert_completion buf cursor (completion_text q.engine req.kind item) (close_popup q)
offer buf cursor req all (item ∷ next ∷ items) q =
    let shared = shared_prefix (item ∷ next ∷ items) req.word in
    let s = if equal shared [] then q else insert_completion buf cursor shared q in
    record s {
      comp = record closed_popup {
        is_open = true;
        all = all;
        items = item ∷ next ∷ items;
        list_kind = req.kind;
      };
    }

unfoldable pub is_none_here : CompletionKind → Bool
is_none_here none_here = true
is_none_here _ = false

-- The candidates, or the queries that they wait for.
unfoldable pub answer_request :
    Bytes → ℕ → CompletionRequest → List Bytes → List SchemaFetch → Query → Query
unfolding offer load_for_completion rank_candidates
answer_request buf cursor req all [] q = offer buf cursor req all (rank_candidates all req.word) q
answer_request buf cursor req all (f ∷ need) q = load_for_completion (f ∷ need) q

-- completeRequest
unfoldable pub complete_request : Bytes → ℕ → CompletionRequest → Query → Query
unfolding answer_request completion_candidates is_none_here
complete_request buf cursor req q =
    let (all, need) = completion_candidates q.cache req in
    if is_none_here req.kind then close_popup q else answer_request buf cursor req all need q

-- startCompletion
unfoldable pub start_completion : Bytes → ℕ → Query → Query
unfolding complete_request completion_request_at
start_completion buf cursor q =
    if not q.connected
    then q
    else complete_request buf cursor (completion_request_at q.engine buf cursor) q

unfoldable pub accepted : Bytes → ℕ → Option Bytes → Query → Query
unfolding insert_completion completion_text
accepted buf cursor none q = q
accepted buf cursor (some item) q =
    insert_completion buf cursor (completion_text q.engine q.comp.list_kind item) (close_popup q)

-- acceptCompletion
unfoldable pub accept_completion : Bytes → ℕ → Query → Query
unfolding accepted
accept_completion buf cursor q = accepted buf cursor (get_elem? q.comp.items q.comp.sel) q

-- A key of the terminal: what its String is, and its runes when it types some and alt is not held.
pub record Key : Type 0 where
  pub name : Bytes
  pub runes : Option (List ℕ)

unfoldable pub stays : EngineType → ℕ → Bool
unfolding is_word_byte
stays redis r = not (r == b' ' || r == b'\t')
stays engine r = not (ltb r 128 && not (is_word_byte r))

unfoldable pub all_stay : EngineType → List ℕ → Bool
unfolding stays
all_stay engine [] = true
all_stay engine (r ∷ runes) = stays engine r && all_stay engine runes

-- staysInName
unfoldable pub stays_in_name : EngineType → List ℕ → Bool
unfolding all_stay
stays_in_name engine runes = all_stay engine runes && ltb 0 (length runes)

-- The keys that updateCompletion leaves to the editor.
unfoldable pub is_typing : EngineType → Key → Bool
unfolding stays_in_name equal
is_typing engine k =
    equal k.name (codes "backspace")
    || elim k.runes [ none ↦ false | some runes ↦ stays_in_name engine runes ]

-- updateCompletion, and whether it consumed the key
unfoldable pub update_completion : Bytes → ℕ → Key → Query → Query × Bool
unfolding move accept_completion is_typing contains_text equal
update_completion buf cursor k q =
    if contains_text (codes "tab" ∷ codes "down" ∷ codes "ctrl+n" ∷ []) k.name
    then (record q { comp = move true q.comp }, true)
    else if contains_text (codes "shift+tab" ∷ codes "up" ∷ codes "ctrl+p" ∷ []) k.name
    then (record q { comp = move false q.comp }, true)
    else if equal k.name (codes "enter")
    then (accept_completion buf cursor q, true)
    else if equal k.name (codes "esc")
    then (close_popup q, true)
    else if is_typing q.engine k
    then (q, false)
    else (close_popup q, false)

unfoldable pub narrowed : Popup → List Bytes → Popup
narrowed p [] = closed_popup
narrowed p (item ∷ items) = record p { items = item ∷ items; sel = 0 }

-- narrowCompletion
unfoldable pub narrow_completion : Bytes → ℕ → Query → Query
unfolding narrowed rank_candidates word_at_cursor
narrow_completion buf cursor q = if not q.comp.is_open || q.comp.pending then q else record q {
  comp = narrowed q.comp (rank_candidates q.comp.all (word_at_cursor q.engine buf cursor));
}

unfoldable pub load_finished : Bytes → ℕ → Option Bytes → Query → Query
unfolding start_completion is_busy
load_finished buf cursor (some err) q = say (failed_with err) (close_popup q)
load_finished buf cursor none q =
    if is_busy q.cache
    then q
    else if q.focused
    then start_completion buf cursor (close_popup q)
    else close_popup q

-- handleCompletionSchema, on the error of the query that finished
unfoldable pub handle_completion_schema : Bytes → ℕ → Option Bytes → Query → Query
unfolding load_finished
handle_completion_schema buf cursor err q =
    if not q.comp.pending then q else load_finished buf cursor err q

-- refreshCompletionSchema
unfoldable pub refresh_completion_schema : Query → Query
unfolding refresh
refresh_completion_schema q =
    if not q.connected
    then q
    else say schema_refreshed (close_popup (record q { cache = refresh q.cache }))
