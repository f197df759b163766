-- ===== src/Picker/Choice.antt =====
-- What the picker chooses, and that its selection stays on the list.
use jump_host.Base.{
  ℕ, zero, suc, ◌-◌, ◌≤◌, ◌<◌, min, ◌≡◌, refl, ap, ◌∙◌, subst, ◌⊎◌, inl, inr, Bool, true, false,
  Option, none, some, List, [], ◌∷◌, ◌++◌, arith, leb, if◌then◌else◌, Bool-cases, Option-cases,
  ◌==◌, eq_iff, nat_eq, text_eq, text_beq, length, get_elem?, In, Text, In-filter,
}
use jump_host.Directory.Host.{Host}
use jump_host.Picker.Keys.{
  State, shows, visible, Step, done, on, clamp, up, down, next, at, digit_index, choose, Key, quit,
  redraw, move_up, move_down, enter, erase, number, extend, ignored, key_of, drop_last, first_code,
  render, on_key, on_data, run, pick_host,
}

if-cases : {A : Type 0} (P : A → Type 0) (b : Bool) (x y : A) → P x → P y → P (if b then x else y)
if-cases P true x y p q = p
if-cases P false x y p q = q

get_elem?-In : (xs : List Host) (i : ℕ) (a : Host) → get_elem? xs i ≡ some a → In a xs
get_elem?-In [] i a h = cc
get_elem?-In (x ∷ xs) zero a h = inl cc
get_elem?-In (x ∷ xs) (suc i) a h = inr (get_elem?-In xs i a h)

get_elem?-found : (xs : List Host) (i : ℕ) → i < length xs → (a : Host) × (get_elem? xs i ≡ some a)
get_elem?-found [] i h = absurd (omega arith)
get_elem?-found (x ∷ xs) zero h = (x, refl)
get_elem?-found (x ∷ xs) (suc i) h = get_elem?-found xs i (omega arith)

at-In : (xs : List Host) (i : Option ℕ) (a : Host) → at xs i ≡ some a → In a xs
at-In xs none a h = cc
at-In xs (some i) a h = get_elem?-In xs i a h

module _ (lower : Text → Text) (hosts : List Host) where
  abbrev count : State → ℕ
  count st = length (visible lower hosts st.typed)

  -- Nothing is shown, or the selected row is one of those that are.
  abbrev pub InView : State → Type 0
  InView st = (count st ≡ 0) ⊎ ((i : ℕ) × (st.selected ≡ some i) × (i < count st))

  -- Nothing is shown, or some row is selected, maybe beyond the end.
  abbrev Placed : State → Type 0
  Placed st = (count st ≡ 0) ⊎ ((i : ℕ) × (st.selected ≡ some i))

  InView-Placed : (st : State) → InView st → Placed st
  InView-Placed st (inl e) = inl e
  InView-Placed st (inr (i, e, _)) = inr (i, e)

  render-InView : (st : State) → Placed st → InView (render lower hosts st)
  unfolding render
  render-InView st (inl e) = inl e
  render-InView st (inr (i, e)) = clamped (count st) st.selected i e
    where
      clamped :
          (n : ℕ) (o : Option ℕ) (i : ℕ)
          → o ≡ some i
          → (n ≡ 0) ⊎ ((j : ℕ) × (clamp n o ≡ some j) × (j < n))
      clamped n none i e = absurd (ground arith)
      clamped n (some k) i e = elim (Bool-cases (leb n k)) [
        | inl beyond ↦ elim (Bool-cases (n == 0)) [
          | inl no_row ↦ inl ((eq_iff n 0).0 no_row)
          | inr some_row ↦ inr (n - 1, rw beyond refl, ground (arith, eq_iff n 0))
        ]
        | inr within ↦ inr (k, rw within refl, ground arith)
      ]

  -- Where a step leads: nothing chosen, a host that the list showed, or a selection in view.
  Fine : Step → Type 0
  Fine (done none) = Unit
  Fine (done (some h)) = In h hosts × ((typed : Text) × (shows lower typed h ≡ true))
  Fine (on st) = InView st

  nothing-Fine : Fine (done none)
  unfolding Fine
  nothing-Fine = tt

  on-Fine : (st : State) → InView st → Fine (on st)
  unfolding Fine
  on-Fine st v = v

  Fine-InView : (st : State) → Fine (on st) → InView st
  unfolding Fine
  Fine-InView st f = f

  drawn-Fine : (st : State) → Placed st → Fine (on (render lower hosts st))
  drawn-Fine st p = on-Fine _ (render-InView st p)

  choose-Fine :
      (st : State) (i : Option ℕ)
      → InView st
      → Fine (choose (at (visible lower hosts st.typed) i) st)
  unfolding Fine visible
  choose-Fine st i v = elim (Option-cases (at (visible lower hosts st.typed) i)) [
    | inl missing ↦ rw missing v
    | inr (h, found) ↦
        let (m, s) = (In-filter (shows lower st.typed) hosts h).0 (at-In _ i h found) in
        rw found (m, (st.typed, s))
  ]

  up-Placed : (st : State) → InView st → Placed (record st { selected = up st.selected })
  up-Placed st (inl e) = inl e
  up-Placed st (inr (i, e, l)) = inr (i - 1, ap up e)

  down-Placed : (st : State) → Placed (record st { selected = down (count st) st.selected })
  down-Placed st = elim (Bool-cases (count st == 0)) [
    | inl none_shown ↦ inl ((eq_iff (count st) 0).0 none_shown)
    | inr some_shown ↦ inr (min (count st - 1) (next st.selected), rw some_shown refl)
  ]

  on_key-Fine : (st : State) (s : Text) (k : Key) → InView st → Fine (on_key lower hosts st s k)
  unfolding on_key
  on_key-Fine st s quit v = nothing-Fine
  on_key-Fine st s redraw v = drawn-Fine st (InView-Placed st v)
  on_key-Fine st s move_up v = drawn-Fine _ (up-Placed st v)
  on_key-Fine st s move_down v = drawn-Fine _ (down-Placed st)
  on_key-Fine st s enter v = choose-Fine st st.selected v
  on_key-Fine st s erase v =
      drawn-Fine (record { typed = drop_last st.typed; selected = some 0 }) (inr (0, refl))
  on_key-Fine st s number v = choose-Fine st (digit_index (first_code s)) v
  on_key-Fine st s extend v =
      drawn-Fine (record { typed = st.typed ++ s; selected = some 0 }) (inr (0, refl))
  on_key-Fine st s ignored v = on-Fine st v

  run-Fine : (step : Step) (keys : List Text) → Fine step → Fine (run lower hosts step keys)
  unfolding run on_data
  run-Fine (done choice) keys f = f
  run-Fine (on st) [] f = f
  run-Fine (on st) (k ∷ keys) f =
      run-Fine (on_key lower hosts st k (key_of k)) keys
        (on_key-Fine st k (key_of k) (Fine-InView st f))

  pick_host-Fine : (keys : List Text) → Fine (pick_host lower hosts keys)
  unfolding pick_host
  pick_host-Fine keys =
      if-cases Fine (length hosts == 0) (done none)
        (run lower hosts (on (render lower hosts (record { typed = []; selected = some 0 }))) keys)
        nothing-Fine
        (run-Fine _ keys (drawn-Fine (record { typed = []; selected = some 0 }) (inr (0, refl))))

  -- Whatever is typed, a chosen host is one of the hosts that the picker was given, and the list
  -- showed it for some filter.
  pub pick_host-In :
      (keys : List Text) (h : Host)
      → pick_host lower hosts keys ≡ done (some h)
      → In h hosts × ((typed : Text) × (shows lower typed h ≡ true))
  unfolding Fine
  pick_host-In keys h e = subst Fine e (pick_host-Fine keys)

  -- Whatever was typed before, as long as the list shows a host, Enter chooses one that it shows.
  pub pick_host-enter :
      (keys : List Text) (st : State)
      → pick_host lower hosts keys ≡ on st
      → 1 ≤ length (visible lower hosts st.typed)
      → (h : Host) × (on_data lower hosts st (13 ∷ []) ≡ done (some h))
        × In h (visible lower hosts st.typed)
  unfolding Fine on_data on_key key_of text_beq
  pick_host-enter keys st e shown = elim (subst Fine e (pick_host-Fine keys)) [
    | inl nothing ↦ absurd (omega arith)
    | inr (i, selected, low) ↦
        let (h, found) = get_elem?-found (visible lower hosts st.typed) i low in
        let here : at (visible lower hosts st.typed) st.selected ≡ some h =
          ap (at (visible lower hosts st.typed)) selected ∙ found in
        (h, rw here refl, get_elem?-In _ i h found)
  ]
