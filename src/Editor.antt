-- ===== src/Editor.antt =====
-- internal/ui/highlight.go: the statement around the cursor, the coloured spans of the editor, and its
-- window. A position that is never negative in the program is a natural number.
pub mod Covered
pub mod Rows
use d9s.Base.{
  ℕ, zero, suc, ◌+◌, ◌-◌, Bool, true, false, not, ◌&&◌, ◌||◌, List, [], ◌∷◌, ◌++◌, Option, none,
  some, Bytes, codes, ltb, leb, ◌==◌, if◌then◌else◌, length, take, drop, min, max, index_byte,
  to_upper,
}
use d9s.Config.Connection.{contains_text}
use d9s.Config.Net.{last_index_byte}
use d9s.Script.Token.{
  EngineType, redis, Token, TokenKind, word, quoted, command, punct, is_punct_text, is_comment,
}
use d9s.Script.Tokens.{tokenize}

-- statementAt: the tokens behind the last semicolon that ends at or before the cursor, up to the next
-- one. `kept` are the tokens since the last semicolon, in reverse order of the loop.
pub statement_from : List Token → List Token → ℕ → List Token
unfolding is_punct_text
statement_from kept [] cursor = kept
statement_from kept (t ∷ ts) cursor =
    let fresh = statement_from [] ts cursor in
    let longer = statement_from (kept ++ t ∷ []) ts cursor in
    if is_punct_text t (codes ";") then (if leb t.end cursor then fresh else kept) else longer

unfoldable pub statement_at : List Token → ℕ → List Token
unfolding statement_from
statement_at toks cursor = statement_from [] toks cursor

-- codeTokens
unfoldable pub code_tokens : List Token → List Token
unfolding is_comment
code_tokens [] = []
code_tokens (t ∷ ts) = if is_comment t.kind then code_tokens ts else t ∷ code_tokens ts

-- tokensIn
unfoldable pub tokens_in : List Token → ℕ → ℕ → List Token
tokens_in [] start end = []
tokens_in (t ∷ ts) start end =
    let rest = tokens_in ts start end in
    if leb start t.start && leb t.end end then t ∷ rest else rest

-- strings.LastIndexByte(s, '\n') + 1
unfoldable pub behind_last_newline : Bytes → ℕ
unfolding last_index_byte
behind_last_newline s = elim (last_index_byte s b'\n') [ none ↦ 0 | some i ↦ suc i ]

-- lineBounds
unfoldable pub line_bounds : Bytes → ℕ → ℕ × ℕ
unfolding behind_last_newline index_byte
line_bounds s offset =
    let at = min offset (length s) in
    (
      behind_last_newline (take at s),
      elim (index_byte (drop at s) b'\n') [ none ↦ length s | some i ↦ at + i ],
    )

-- statementCode
unfoldable pub statement_code : List Token → EngineType → Bytes → ℕ → List Token
unfolding code_tokens tokens_in line_bounds statement_at
statement_code toks redis buf cursor =
    code_tokens (tokens_in toks (line_bounds buf cursor).0 (line_bounds buf cursor).1)
statement_code toks engine buf cursor = code_tokens (statement_at toks cursor)

abbrev pub last_end : ℕ → List Token → ℕ
last_end e [] = e
last_end e (t ∷ ts) = last_end t.end ts

abbrev pub bounds_of : List Token → Option (ℕ × ℕ)
bounds_of [] = none
bounds_of (t ∷ ts) = some (t.start, last_end t.end ts)

-- statementBounds; none is ok == false
unfoldable pub statement_bounds : List Token → EngineType → Bytes → ℕ → Option (ℕ × ℕ)
unfolding statement_code
statement_bounds toks engine buf cursor =
    let behind = bounds_of (statement_code toks engine buf (cursor - 1)) in
    elim (bounds_of (statement_code toks engine buf cursor)) [
      | some r ↦ some r
      | none ↦ if ltb 0 cursor then behind else none
    ]

-- spanKind
pub data SpanKind : Type 0 where
  plain keyword string number comment : SpanKind

pub same_kind : SpanKind → SpanKind → Bool
same_kind plain plain = true
same_kind keyword keyword = true
same_kind string string = true
same_kind number number = true
same_kind comment comment = true
same_kind _ _ = false

-- highlightSpan
pub record Span : Type 0 where
  pub start : ℕ
  pub end : ℕ
  pub kind : SpanKind

-- highlightLookback
abbrev pub highlight_lookback : ℕ
highlight_lookback = 8192

-- lineStartBefore
unfoldable pub line_start_before : Bytes → ℕ → ℕ
unfolding behind_last_newline
line_start_before buf offset = behind_last_newline (take (min offset (length buf)) buf)

abbrev pub shift : ℕ → List Token → List Token
shift n [] = []
shift n (t ∷ ts) = record t { start = t.start + n; end = t.end + n } ∷ shift n ts

-- tokenizeWindow
unfoldable pub tokenize_window : EngineType → Bytes → ℕ → ℕ → List Token
unfolding tokenize line_start_before
tokenize_window engine buf from to =
    let low = min from (length buf) in
    let high = min (if ltb to low then low else to) (length buf) in
    let start = line_start_before buf (low - highlight_lookback) in
    shift start (tokenize engine (take (high - start) (drop start buf)))

-- add of spansIn, on the spans so far, the last one in front.
unfoldable pub add_span : List Span → ℕ → ℕ → SpanKind → List Span
unfolding same_kind
add_span [] start end kind = record { start = start; end = end; kind = kind } ∷ []
add_span (s ∷ out) start end kind =
    if same_kind s.kind kind && s.end == start
    then record s { end = end } ∷ out
    else record { start = start; end = end; kind = kind } ∷ s ∷ out

module _ (kind_of : Token → SpanKind) where
  -- The body of the loop of spansIn on a token in the range: the plain text in front of it, and it.
  unfoldable pub span_token : ℕ → ℕ → List Span → ℕ → Token → List Span × ℕ
  unfolding add_span
  span_token from to out at t =
      let start = max t.start from in
      let end = min t.end to in
      (
        add_span (if ltb at start then add_span out at start plain else out) start end (kind_of t),
        end,
      )

  -- The loop of spansIn; the spans are held in reverse.
  unfoldable pub span_tokens : ℕ → ℕ → List Span → ℕ → List Token → List Span × ℕ
  unfolding span_token
  span_tokens from to out at [] = (out, at)
  span_tokens from to out at (t ∷ ts) =
      let skipped = span_tokens from to out at ts in
      let taken =
        span_tokens from to (span_token from to out at t).0 (span_token from to out at t).1 ts in
      if leb t.end from then skipped else if leb to t.start then (out, at) else taken

  -- The end of spansIn.
  unfoldable pub span_rest : ℕ → List Span × ℕ → List Span
  unfolding add_span
  span_rest to (out, at) = if ltb at to then add_span out at to plain else out

  -- spansIn, in reverse order
  unfoldable pub spans_in : List Token → ℕ → ℕ → List Span
  unfolding span_tokens span_rest
  spans_in toks from to = span_rest (max to from) (span_tokens from (max to from) [] from toks)

-- spanKindOf; `reserved` is sqlKeywordSet.
unfoldable pub span_kind_of : List Bytes → Token → SpanKind
unfolding contains_text to_upper
span_kind_of reserved t = elim t.kind [
  | TokenKind.string ↦ SpanKind.string
  | TokenKind.number ↦ SpanKind.number
  | TokenKind.comment ↦ SpanKind.comment
  | command ↦ keyword
  | word ↦ if contains_text reserved (to_upper t.text) then keyword else plain
  | quoted ↦ plain
  | punct ↦ plain
]

-- The spans that end at or before the offset are passed.
unfoldable pub pass_spans : ℕ → List Span → List Span
pass_spans offset [] = []
pass_spans offset (s ∷ spans) = if leb s.end offset then pass_spans offset spans else s ∷ spans

abbrev pub kind_at : ℕ → List Span → SpanKind
kind_at offset [] = plain
kind_at offset (s ∷ spans) = if leb s.start offset then s.kind else plain

-- rowKinds, on the runes of the line, each by its bytes.
unfoldable pub row_kinds : List Bytes → ℕ → List Span → List SpanKind
unfolding pass_spans
row_kinds [] offset spans = []
row_kinds (r ∷ line) offset spans =
    let left = pass_spans offset spans in
    kind_at offset left ∷ row_kinds line (offset + length r) left

-- styledRun
pub record StyledRun : Type 0 where
  pub text : List Bytes
  pub kind : SpanKind
  pub cursor : Bool

-- The run of a rune in front of the runs behind it: it joins one of its kind that holds no cursor.
unfoldable pub join_run : Bytes → SpanKind → Bool → List StyledRun → List StyledRun
unfolding same_kind
join_run r kind here [] = record { text = r ∷ []; kind = kind; cursor = here } ∷ []
join_run r kind here (run ∷ runs) =
    if (here || run.cursor) || not (same_kind kind run.kind)
    then record { text = r ∷ []; kind = kind; cursor = here } ∷ run ∷ runs
    else record run { text = r ∷ run.text } ∷ runs

-- groupRuns from the rune `i` on; the cursor stands at the rune of its number, if any does.
unfoldable pub group_runs : ℕ → List (Bytes × SpanKind) → Option ℕ → List StyledRun
unfolding join_run
group_runs i [] cursor = []
group_runs i ((r, kind) ∷ runes) cursor =
    join_run r kind (elim cursor [ none ↦ false | some c ↦ c == i ])
      (group_runs (suc i) runes cursor)

-- lineStarts, from the offset of the first line
unfoldable pub line_starts : ℕ → List Bytes → List ℕ
line_starts at [] = []
line_starts at (line ∷ lines) = at ∷ line_starts (at + length line + 1) lines

-- The edges of scrollEditor in one direction: `at` is kept inside `size` places from `top` on.
unfoldable pub scroll : ℕ → ℕ → ℕ → ℕ
scroll top at size = let low = min top at in if leb (low + size) at then at + 1 - size else low

-- scrollEditor, on (edTop, edLeft)
unfoldable pub scroll_editor : ℕ × ℕ → ℕ → ℕ → ℕ → ℕ → ℕ × ℕ
unfolding scroll
scroll_editor (top, left) row col rows cols =
    if ltb rows 1 || ltb cols 1 then (top, left) else (scroll top row rows, scroll left col cols)
