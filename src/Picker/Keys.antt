-- ===== src/Picker/Keys.antt =====
-- The state of the picker, and what each key does. What is drawn is not modelled, but for the row that
-- a drawing selects.
use jump_host.Base.{
  ℕ, ◌+◌, ◌-◌, min, Bool, true, false, ◌&&◌, ◌||◌, Option, none, some, List, [], ◌∷◌, ◌++◌, leb,
  if◌then◌else◌, ◌==◌, nat_eq, text_eq, length, get_elem?, take, filter, Text, text, is_digit,
}
use jump_host.Directory.Host.{Host}
use jump_host.Directory.Target.{includes}

-- `selected` is `none` for -1.
pub record State : Type 0 where
  pub typed : Text
  pub selected : Option ℕ

abbrev pub printed : Option Text → Text
printed none = text "undefined"
printed (some v) = v

abbrev pub or_empty : Option Text → Text
or_empty none = []
or_empty (some v) = v

-- `toLowerCase` is the parameter.
module _ (lower : Text → Text) where
  unfoldable pub shows : Text → Host → Bool
  shows typed h =
      if length typed == 0
      then true
      else includes
          (lower (printed h.name ++ b' ' ∷ (printed h.slug ++ b' ' ∷ or_empty h.metadata.ip)))
          (lower typed)

  unfoldable pub visible : List Host → Text → List Host
  visible hosts typed = filter (shows typed) hosts

-- What a handler leaves: a chosen host or nothing chosen, or the next state.
pub data Step : Type 0 where
  done : Option Host → Step
  on : State → Step

-- `if (selected >= list.length) selected = Math.max(0, list.length - 1)`
abbrev pub clamp : ℕ → Option ℕ → Option ℕ
clamp count none = none
clamp count (some i) = if leb count i then some (count - 1) else some i

abbrev pub up : Option ℕ → Option ℕ
up none = some 0
up (some i) = some (i - 1)

-- `Math.min(list.length - 1, selected + 1)`
abbrev pub next : Option ℕ → ℕ
next none = 0
next (some i) = i + 1

abbrev pub down : ℕ → Option ℕ → Option ℕ
down count i = if count == 0 then none else some (min (count - 1) (next i))

abbrev pub at : List Host → Option ℕ → Option Host
at hosts none = none
at hosts (some i) = get_elem? hosts i

-- `list[Number(s) - 1]` at one digit.
abbrev pub digit_index : ℕ → Option ℕ
digit_index d = if d == b'0' then none else some (d - b'0' - 1)

-- `if (list[i]) return done(list[i]); return;`
abbrev pub choose : Option Host → State → Step
choose none st = on st
choose (some h) st = done (some h)

abbrev pub drop_last : Text → Text
drop_last t = take (length t - 1) t

abbrev pub is_digit_key : Text → Bool
is_digit_key (d ∷ []) = is_digit d
is_digit_key s = false

abbrev pub first_code : Text → ℕ
first_code [] = 0
first_code (c ∷ s) = c

abbrev pub is_printable : Text → Bool
is_printable s = length s == 1 && leb b' ' (first_code s)

-- The tests of `onData`, in their order.
pub data Key : Type 0 where
  quit redraw move_up move_down enter erase number extend ignored : Key

unfoldable pub key_of : Text → Key
key_of s =
    if s == 3 ∷ [] || s == text "q"
    then quit
    else if s == 12 ∷ []
    then redraw
    else if s == 27 ∷ text "[A"
    then move_up
    else if s == 27 ∷ text "[B"
    then move_down
    else if s == 13 ∷ [] || s == 10 ∷ []
    then enter
    else if s == 127 ∷ [] || s == 8 ∷ []
    then erase
    else if is_digit_key s
    then number
    else if is_printable s
    then extend
    else ignored

module _ (lower : Text → Text) (hosts : List Host) where
  unfoldable pub render : State → State
  render st = record {
    typed = st.typed;
    selected = clamp (length (visible lower hosts st.typed)) st.selected;
  }

  -- What `onData` does for the test that its input passes first.
  unfoldable pub on_key : State → Text → Key → Step
  on_key st s quit = done none
  on_key st s redraw = on (render st)
  on_key st s move_up = on (render (record st { selected = up st.selected }))
  on_key st s move_down =
      on
        (render (record st { selected = down (length (visible lower hosts st.typed)) st.selected }))
  on_key st s enter = choose (at (visible lower hosts st.typed) st.selected) st
  on_key st s erase = on (render (record { typed = drop_last st.typed; selected = some 0 }))
  on_key st s number = choose (at (visible lower hosts st.typed) (digit_index (first_code s))) st
  on_key st s extend = on (render (record { typed = st.typed ++ s; selected = some 0 }))
  on_key st s ignored = on st

  unfoldable pub on_data : State → Text → Step
  on_data st s = on_key st s (key_of s)

  -- The keys of a session, in order; the handler is removed once it is done.
  unfoldable pub run : Step → List Text → Step
  run (done choice) keys = done choice
  run (on st) [] = on st
  run (on st) (k ∷ keys) = run (on_data st k) keys

  unfoldable pub pick_host : List Text → Step
  pick_host keys =
      if length hosts == 0
      then done none
      else run (on (render (record { typed = []; selected = some 0 }))) keys
