-- ===== src/Picker.antt =====
-- internal/ui/picker.go: the picker of a 1Password field, from the vaults to the items of one and to the
-- fields of one. What the 1Password tool lists are arguments of the messages; the form behind the picker is
-- the part that a choice writes.
pub mod Chosen
use d9s.Base.{
  ℕ, zero, suc, ◌+◌, ◌-◌, Bool, true, false, not, ◌&&◌, ◌||◌, List, [], ◌∷◌, ◌++◌, Option, none,
  some, Bytes, codes, ltb, leb, ◌==◌, if◌then◌else◌, ◌⊎◌, inl, inr, length, get_elem?, equal,
  contains, to_lower, trim_space,
}
use d9s.Secrets.Reference.{Vault, Item, Field, PartError, is_concealed, reference_of}

-- opStep
pub data OpStep : Type 0 where
  step_vaults step_items step_fields : OpStep

-- opPicker
pub record OpPicker : Type 0 where
  pub step : OpStep
  pub filter : Bytes
  pub sel : ℕ
  pub vaults : List Vault
  pub items : List Item
  pub fields : List Field
  pub vault : Vault
  pub item : Item

abbrev pub no_vault : Vault
no_vault = record { id = []; name = [] }

abbrev pub no_item : Item
no_item = record { id = []; title = []; category = [] }

abbrev pub new_picker : OpPicker
new_picker = record {
  step = step_vaults;
  filter = [];
  sel = 0;
  vaults = [];
  items = [];
  fields = [];
  vault = no_vault;
  item = no_item;
}

-- fieldDetail, whose parts a middle dot joins
unfoldable pub field_detail : Field → Bytes
unfolding is_concealed to_lower equal
field_detail f =
    let shown = if is_concealed f then codes "concealed" else to_lower f.kind in
    if equal f.section []
    then shown
    else if equal shown []
    then f.section
    else f.section ++ (32 ∷ 0xC2 ∷ 0xB7 ∷ 32 ∷ shown)

-- pickerRow, as its label and its detail
unfoldable pub vault_rows : List Vault → List (Bytes × Bytes)
vault_rows [] = []
vault_rows (v ∷ vs) = (v.name, []) ∷ vault_rows vs

unfoldable pub item_rows : List Item → List (Bytes × Bytes)
unfolding to_lower
item_rows [] = []
item_rows (it ∷ its) = (it.title, to_lower it.category) ∷ item_rows its

unfoldable pub field_rows : List Field → List (Bytes × Bytes)
unfolding field_detail
field_rows [] = []
field_rows (f ∷ fs) = (f.label, field_detail f) ∷ field_rows fs

unfoldable pub all_rows : OpPicker → List (Bytes × Bytes)
unfolding vault_rows item_rows field_rows
all_rows p = elim p.step [
  | step_vaults ↦ vault_rows p.vaults
  | step_items ↦ item_rows p.items
  | step_fields ↦ field_rows p.fields
]

-- A row passes the filter, which is in lower case.
unfoldable pub is_shown : Bytes → Bytes → Bool
unfolding contains to_lower equal
is_shown q label = equal q [] || contains (to_lower label) q

unfoldable pub shown_rows : Bytes → List (Bytes × Bytes) → List (Bytes × Bytes)
unfolding is_shown
shown_rows q [] = []
shown_rows q (r ∷ rs) = let rest = shown_rows q rs in if is_shown q r.0 then r ∷ rest else rest

unfoldable pub needle : OpPicker → Bytes
unfolding to_lower trim_space
needle p = to_lower (trim_space p.filter)

-- rows
unfoldable pub rows_of : OpPicker → List (Bytes × Bytes)
unfolding shown_rows needle all_rows
rows_of p = shown_rows (needle p) (all_rows p)

-- clampSel
unfoldable pub clamp_sel : OpPicker → OpPicker
unfolding rows_of
clamp_sel p = let n = length (rows_of p) in if leb n p.sel then record p { sel = n - 1 } else p

-- The second walk of selectedIndex, from the entry `i` on, behind `seen` rows that pass the filter.
unfoldable pub index_from : Bytes → ℕ → Bytes → ℕ → ℕ → List (Bytes × Bytes) → Option ℕ
unfolding is_shown equal
index_from q sel want seen i [] = none
index_from q sel want seen i (r ∷ rs) =
    let rest = index_from q sel want (if is_shown q r.0 then suc seen else seen) (suc i) rs in
    if is_shown q r.0 && (seen == sel && equal r.0 want) then some i else rest

unfoldable pub index_when : OpPicker → Option (Bytes × Bytes) → Option ℕ
unfolding index_from needle all_rows
index_when p none = none
index_when p (some want) = index_from (needle p) p.sel want.0 0 0 (all_rows p)

-- selectedIndex; none is -1
unfoldable pub selected_index : OpPicker → Option ℕ
unfolding index_when rows_of
selected_index p = index_when p (get_elem? (rows_of p) p.sel)

-- What pickerBack leaves: a picker one step out, or none.
unfoldable pub back : OpPicker → Option OpPicker
back p = elim p.step [
  | step_fields ↦ some (record p { step = step_items; filter = []; sel = 0 })
  | step_items ↦ some (record p { step = step_vaults; filter = []; sel = 0 })
  | step_vaults ↦ none
]

-- What a choice does next to the picker: nothing, a listing to load, a reference for the form, or an error.
pub data Choice : Type 0 where
  nothing : Choice
  load_items : Vault → Choice
  load_fields : Vault → Item → Choice
  set_reference : Bytes → Choice
  refused : PartError → Choice

unfoldable pub chosen_vault : OpPicker → Option Vault → Option OpPicker × Choice
chosen_vault p none = (some p, nothing)
chosen_vault p (some v) =
    (some (record p { vault = v; step = step_items; filter = []; sel = 0 }), load_items v)

unfoldable pub chosen_item : OpPicker → Option Item → Option OpPicker × Choice
chosen_item p none = (some p, nothing)
chosen_item p (some it) = (
  some (record p { item = it; step = step_fields; filter = []; sel = 0 }),
  load_fields p.vault it,
)

unfoldable pub referenced : OpPicker → PartError ⊎ Bytes → Option OpPicker × Choice
referenced p (inl err) = (some p, refused err)
referenced p (inr ref) = (none, set_reference ref)

unfoldable pub chosen_field : OpPicker → Option Field → Option OpPicker × Choice
unfolding referenced reference_of
chosen_field p none = (some p, nothing)
chosen_field p (some f) = referenced p (reference_of p.vault p.item f)

unfoldable pub choose_at : OpPicker → Option ℕ → Option OpPicker × Choice
unfolding chosen_vault chosen_item chosen_field
choose_at p none = (some p, nothing)
choose_at p (some i) = elim p.step [
  | step_vaults ↦ chosen_vault p (get_elem? p.vaults i)
  | step_items ↦ chosen_item p (get_elem? p.items i)
  | step_fields ↦ chosen_field p (get_elem? p.fields i)
]

-- pickerChoose
unfoldable pub choose : OpPicker → Option OpPicker × Choice
unfolding choose_at selected_index
choose p = choose_at p (selected_index p)

-- A key: its String, and the text that it types, if any.
pub record PickerKey : Type 0 where
  pub name : Bytes
  pub typed : Option Bytes

-- updatePicker; `drop_rune` cuts the last rune off, and a filter without one is kept with its selection.
unfoldable pub update_picker : (Bytes → Bytes) → PickerKey → OpPicker → Option OpPicker × Choice
unfolding back choose clamp_sel equal
update_picker drop_rune k p =
    if equal k.name (codes "esc")
    then (back p, nothing)
    else if equal k.name (codes "up")
    then (some (clamp_sel (record p { sel = p.sel - 1 })), nothing)
    else if equal k.name (codes "down")
    then (some (clamp_sel (record p { sel = suc p.sel })), nothing)
    else if equal k.name (codes "enter")
    then choose p
    else if equal k.name (codes "backspace")
    then (if equal p.filter []
        then (some p, nothing)
        else (some (record p { filter = drop_rune p.filter; sel = 0 }), nothing))
    else elim k.typed [
      | none ↦ (some p, nothing)
      | some text ↦ (some (record p { filter = p.filter ++ text; sel = 0 }), nothing)
    ]

-- concealedFirst: the hidden fields and behind them the others, each in their order.
unfoldable pub with_concealed : Bool → List Field → List Field
unfolding is_concealed
with_concealed wanted [] = []
with_concealed wanted (f ∷ fs) =
    let rest = with_concealed wanted fs in
    if (is_concealed f && wanted) || (not (is_concealed f) && not wanted) then f ∷ rest else rest

unfoldable pub concealed_first : List Field → List Field
unfolding with_concealed
concealed_first fs = with_concealed true fs ++ with_concealed false fs

-- The picker of the form, the count of its generation, and whether it waits.
pub record PickerState : Type 0 where
  pub gen : ℕ
  pub picker : Option OpPicker
  pub is_busy : Bool
  pub failed : Bool

-- A message of a listing, with the generation that asked for it; none is its error.
pub data PickerMsg : Type 0 where
  vaults_msg : ℕ → Option (List Vault) → PickerMsg
  items_msg : ℕ → Option (List Item) → PickerMsg
  fields_msg : ℕ → Option (List Field) → PickerMsg

unfoldable pub got_vaults : PickerState → Option OpPicker → Option (List Vault) → PickerState
unfolding clamp_sel
got_vaults e none got = record e { is_busy = false }
got_vaults e (some p) none = record e { is_busy = false; picker = none; failed = true }
got_vaults e (some p) (some vs) = record e {
  is_busy = false;
  picker = some (clamp_sel (record p { vaults = vs }));
  failed = e.failed || length vs == 0;
}

unfoldable pub got_items : PickerState → Option OpPicker → Option (List Item) → PickerState
unfolding clamp_sel
got_items e none got = e
got_items e (some p) none = record e {
  is_busy = false;
  picker = some (record p { step = step_vaults });
  failed = true;
}
got_items e (some p) (some its) = record e {
  is_busy = false;
  picker = some (clamp_sel (record p { items = its }));
}

unfoldable pub got_fields : PickerState → Option OpPicker → Option (List Field) → PickerState
unfolding clamp_sel concealed_first
got_fields e none got = e
got_fields e (some p) none = record e {
  is_busy = false;
  picker = some (record p { step = step_items });
  failed = true;
}
got_fields e (some p) (some fs) = record e {
  is_busy = false;
  picker = some (clamp_sel (record p { fields = concealed_first fs }));
}

-- handlePickerMsg: a message of another generation is dropped.
unfoldable pub handle_picker_msg : PickerMsg → PickerState → PickerState
unfolding got_vaults got_items got_fields
handle_picker_msg (vaults_msg gen got) e = if gen == e.gen then got_vaults e e.picker got else e
handle_picker_msg (items_msg gen got) e = if gen == e.gen then got_items e e.picker got else e
handle_picker_msg (fields_msg gen got) e = if gen == e.gen then got_fields e e.picker got else e
