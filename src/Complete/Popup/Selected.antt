-- ===== src/Complete/Popup/Selected.antt =====
-- The selection of the completion's popup, through any sequence of keys, loads and edits.
use mathlib.Core.Path.{subst}
use native.Mathlib.Nat.{mod-lt, zero-lt-suc}
use d9s.Base.{
  ℕ, ◌<◌, ◌≡◌, refl, sym, ap, ◌∙◌, Bool, true, false, not, ◌&&◌, ◌||◌, List, [], ◌∷◌, Option, none,
  some, Bytes, codes, length, get_elem?, equal, arith, if◌then◌else◌,
}
use d9s.Complete.{CompletionRequest, completion_request_at}
use d9s.Complete.Candidates.{SchemaFetch, completion_candidates, rank_candidates}
use d9s.Complete.Popup.{
  Popup, Query, Key, closed_popup, close_popup, shifted, move, accepted, load_finished, claim_all,
  load_for_completion, offer, insert_completion, is_none_here, answer_request, complete_request,
  start_completion, accept_completion, is_typing, update_completion, narrowed, narrow_completion,
  word_at_cursor, handle_completion_schema, refresh_completion_schema,
}
use d9s.Config.Connection.{contains_text}
use d9s.Schema.{is_busy}

false-true {ℓ} : {A : Type ℓ} → false ≡ true → A
false-true e = cc

-- A popup that shows its list has one of the items selected.
pub IsSelecting : Popup → Type 0
IsSelecting p = (p.is_open && not p.pending) ≡ true → p.sel < length p.items

-- The same of a screen, and of one that took a key.
Selects : Query → Type 0
Selects q = IsSelecting q.comp

KeySelects : Query × Bool → Type 0
KeySelects r = Selects r.0

closed-IsSelecting : (q : Query) → Selects (close_popup q)
unfolding IsSelecting Selects
closed-IsSelecting q = λ h. cc

if-IsSelecting : (b : Bool) (x y : Query) → Selects x → Selects y → Selects (if b then x else y)
if-IsSelecting true x y h k = h
if-IsSelecting false x y h k = k

shifted-IsSelecting :
    (items : List Bytes) (sum : ℕ) (p : Popup)
    → p.items ≡ items
    → IsSelecting p
    → IsSelecting (shifted items sum p)
unfolding IsSelecting
shifted-IsSelecting [] sum p e h = h
shifted-IsSelecting (item ∷ items) sum p e h = λ k. rw e (mod-lt sum (zero-lt-suc (length items)))

move-IsSelecting : (forward : Bool) (p : Popup) → IsSelecting p → IsSelecting (move forward p)
unfolding move
move-IsSelecting forward p h = shifted-IsSelecting p.items _ p refl h

pending-IsSelecting : (q : Query) (p : Popup) → p.pending ≡ true → Selects (record q { comp = p })
unfolding IsSelecting Selects
pending-IsSelecting q p e = ground arith

load_for_completion-IsSelecting :
    (need : List SchemaFetch) (q : Query) → Selects (load_for_completion need q)
unfolding load_for_completion Selects
load_for_completion-IsSelecting need q = if-IsSelecting q.running _ _ (closed-IsSelecting q) (
    if-IsSelecting q.inflight _ _ (closed-IsSelecting q)
      (pending-IsSelecting (claim_all need q) _ refl))

offer-IsSelecting :
    (buf : Bytes) (cursor : ℕ) (req : CompletionRequest) (all items : List Bytes) (q : Query)
    → Selects (offer buf cursor req all items q)
unfolding IsSelecting Selects offer insert_completion
offer-IsSelecting buf cursor req all [] q = λ h. cc
offer-IsSelecting buf cursor req all (item ∷ []) q = λ h. cc
offer-IsSelecting buf cursor req all (item ∷ next ∷ items) q = λ h. omega arith

narrowed-IsSelecting : (p : Popup) (items : List Bytes) → IsSelecting (narrowed p items)
unfolding IsSelecting narrowed
narrowed-IsSelecting p [] = λ h. cc
narrowed-IsSelecting p (item ∷ items) = λ h. omega arith

answer_request-IsSelecting :
    (buf : Bytes) (cursor : ℕ) (req : CompletionRequest) (all : List Bytes)
    (need : List SchemaFetch) (q : Query)
    → Selects (answer_request buf cursor req all need q)
unfolding answer_request
answer_request-IsSelecting buf cursor req all [] q =
    offer-IsSelecting buf cursor req all (rank_candidates all req.word) q
answer_request-IsSelecting buf cursor req all (f ∷ need) q =
    load_for_completion-IsSelecting (f ∷ need) q

complete_request-IsSelecting :
    (buf : Bytes) (cursor : ℕ) (req : CompletionRequest) (q : Query)
    → Selects (complete_request buf cursor req q)
unfolding complete_request
complete_request-IsSelecting buf cursor req q =
    let found = completion_candidates q.cache req in
    if-IsSelecting (is_none_here req.kind) _ _ (closed-IsSelecting q)
      (answer_request-IsSelecting buf cursor req found.0 found.1 q)

start_completion-IsSelecting :
    (buf : Bytes) (cursor : ℕ) (q : Query) → Selects q → Selects (start_completion buf cursor q)
unfolding start_completion
start_completion-IsSelecting buf cursor q h =
    if-IsSelecting (not q.connected) _ _ h
      (complete_request-IsSelecting buf cursor (completion_request_at q.engine buf cursor) q)

accepted-IsSelecting :
    (buf : Bytes) (cursor : ℕ) (got : Option Bytes) (q : Query)
    → Selects q
    → Selects (accepted buf cursor got q)
unfolding accepted insert_completion Selects
accepted-IsSelecting buf cursor none q h = h
accepted-IsSelecting buf cursor (some item) q h = closed-IsSelecting q

if-keys :
    (b : Bool) (x y : Query × Bool) → KeySelects x → KeySelects y → KeySelects (if b then x else y)
if-keys true x y h k = h
if-keys false x y h k = k

update_completion-IsSelecting :
    (buf : Bytes) (cursor : ℕ) (k : Key) (q : Query)
    → Selects q
    → KeySelects (update_completion buf cursor k q)
unfolding update_completion accept_completion KeySelects Selects
update_completion-IsSelecting buf cursor k q h =
    if-keys (contains_text (codes "tab" ∷ codes "down" ∷ codes "ctrl+n" ∷ []) k.name) _ _
      (move-IsSelecting true q.comp h)
      (if-keys (contains_text (codes "shift+tab" ∷ codes "up" ∷ codes "ctrl+p" ∷ []) k.name) _ _
        (move-IsSelecting false q.comp h)
        (if-keys (equal k.name (codes "enter")) _ _
          (accepted-IsSelecting buf cursor (get_elem? q.comp.items q.comp.sel) q h)
          (if-keys (equal k.name (codes "esc")) _ _ (closed-IsSelecting q)
            (if-keys (is_typing q.engine k) _ _ h (closed-IsSelecting q)))))

narrow_completion-IsSelecting :
    (buf : Bytes) (cursor : ℕ) (q : Query) → Selects q → Selects (narrow_completion buf cursor q)
unfolding narrow_completion Selects
narrow_completion-IsSelecting buf cursor q h =
    if-IsSelecting (not q.comp.is_open || q.comp.pending) _ _ h (
      narrowed-IsSelecting q.comp (rank_candidates q.comp.all (word_at_cursor q.engine buf cursor)))

load_finished-IsSelecting :
    (buf : Bytes) (cursor : ℕ) (err : Option Bytes) (q : Query)
    → Selects q
    → Selects (load_finished buf cursor err q)
unfolding load_finished Selects
load_finished-IsSelecting buf cursor (some err) q h = closed-IsSelecting q
load_finished-IsSelecting buf cursor none q h = if-IsSelecting (is_busy q.cache) _ _ h (
    if-IsSelecting q.focused _ _
      (start_completion-IsSelecting buf cursor (close_popup q) (closed-IsSelecting q))
      (closed-IsSelecting q))

handle_completion_schema-IsSelecting :
    (buf : Bytes) (cursor : ℕ) (err : Option Bytes) (q : Query)
    → Selects q
    → Selects (handle_completion_schema buf cursor err q)
unfolding handle_completion_schema
handle_completion_schema-IsSelecting buf cursor err q h =
    if-IsSelecting (not q.comp.pending) _ _ h (load_finished-IsSelecting buf cursor err q h)

refresh_completion_schema-IsSelecting :
    (q : Query) → Selects q → Selects (refresh_completion_schema q)
unfolding refresh_completion_schema Selects
refresh_completion_schema-IsSelecting q h =
    if-IsSelecting (not q.connected) _ _ h (closed-IsSelecting q)

-- What happens to a query screen: Tab, a key while the popup is open, an edit, a catalog query that
-- finishes, a refresh of the names, and any change of the parts that the popup does not own.
pub data Step : Query → Query → Type 0 where
  starts : (buf : Bytes) (cursor : ℕ) (q : Query) → Step q (start_completion buf cursor q)
  keyed :
      (buf : Bytes) (cursor : ℕ) (k : Key) (q : Query) → Step q (update_completion buf cursor k q).0
  edited : (buf : Bytes) (cursor : ℕ) (q : Query) → Step q (narrow_completion buf cursor q)
  loads :
      (buf : Bytes) (cursor : ℕ) (err : Option Bytes) (q : Query)
      → Step q (handle_completion_schema buf cursor err q)
  refreshes : (q : Query) → Step q (refresh_completion_schema q)
  changes : (q r : Query) → r.comp ≡ q.comp → Step q r

pub data Reach : Query → Type 0 where
  fresh : (q : Query) → q.comp ≡ closed_popup → Reach q
  next : {q r : Query} → Reach q → Step q r → Reach r

Step-IsSelecting : {q r : Query} → Step q r → Selects q → Selects r
unfolding Selects KeySelects
Step-IsSelecting (starts buf cursor q) h = start_completion-IsSelecting buf cursor q h
Step-IsSelecting (keyed buf cursor k q) h = update_completion-IsSelecting buf cursor k q h
Step-IsSelecting (edited buf cursor q) h = narrow_completion-IsSelecting buf cursor q h
Step-IsSelecting (loads buf cursor err q) h =
    handle_completion_schema-IsSelecting buf cursor err q h
Step-IsSelecting (refreshes q) h = refresh_completion_schema-IsSelecting q h
Step-IsSelecting (changes q r e) h = subst IsSelecting (sym e) h

opened_closed :
    (p : Popup) → p ≡ closed_popup → (p.is_open && not p.pending) ≡ true → p.sel < length p.items
opened_closed p e h = false-true (sym (ap (λ r. r.is_open && not r.pending) e) ∙ h)

Reach-IsSelecting : {q : Query} → Reach q → Selects q
unfolding Selects IsSelecting
Reach-IsSelecting (fresh q e) = λ h. opened_closed q.comp e h
Reach-IsSelecting (next r s) = Step-IsSelecting s (Reach-IsSelecting r)

-- After any sequence of Tab presses, keys, edits and finished catalog queries, and whatever the rest of
-- the screen does, a popup that shows its list has one of its items selected.
pub popup-IsSelecting :
    {q : Query}
    → Reach q
    → q.comp.is_open ≡ true
    → q.comp.pending ≡ false
    → q.comp.sel < length q.comp.items
unfolding IsSelecting Selects
popup-IsSelecting {q} r h k = Reach-IsSelecting r (rw (h, k) refl)
