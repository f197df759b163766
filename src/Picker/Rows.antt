-- ===== src/Picker/Rows.antt =====
-- Which row a key of nodejs/services/tui_picker.js chooses.
use jump_host.Base.{
  ℕ, ◌+◌, ◌≤◌, ◌≡◌, refl, ap, ◌∙◌, ◌⊎◌, inl, inr, true, Option, none, some, List, [], ◌∷◌, ◌++◌,
  arith, Bool-cases, ◌==◌, eq_iff, nat_eq, text_eq, length, get_elem?, Text,
}
use jump_host.Directory.Host.{Host}
use jump_host.Picker.Keys.{
  State, visible, Step, done, on, at, digit_index, choose, Key, quit, redraw, move_up, move_down,
  enter, erase, number, extend, ignored, key_of, is_digit_key, first_code, render, on_key, on_data,
  run, pick_host,
}

-- Enter, a carriage return or a line feed, means the selected row, and a digit from 1 to 9 the row of
-- that number, counted from 1.
abbrev pub MeansRow : Text → State → ℕ → Type 0
MeansRow k st i =
    (((k ≡ 13 ∷ []) ⊎ (k ≡ 10 ∷ [])) × (st.selected ≡ some i)) ⊎ ((i ≤ 8) × (k ≡ (b'1' + i) ∷ []))

choose-done : (o : Option Host) (st : State) (h : Host) → choose o st ≡ done (some h) → o ≡ some h
choose-done none st h e = cc
choose-done (some g) st h e = cc

at-some :
    (xs : List Host) (o : Option ℕ) (h : Host)
    → at xs o ≡ some h
    → (i : ℕ) × (o ≡ some i) × (get_elem? xs i ≡ some h)
at-some xs none h e = cc
at-some xs (some i) h e = (i, refl, e)

key_of-enter : (k : Text) → key_of k ≡ enter → (k ≡ 13 ∷ []) ⊎ (k ≡ 10 ∷ [])
unfolding key_of
key_of-enter k e = ground (arith, eq_iff k (13 ∷ []), eq_iff k (10 ∷ []))

key_of-number : (k : Text) → key_of k ≡ number → is_digit_key k ≡ true
unfolding key_of
key_of-number k e = ground arith

digit-row :
    (k : Text) (i : ℕ)
    → is_digit_key k ≡ true
    → digit_index (first_code k) ≡ some i
    → (i ≤ 8) × (k ≡ (b'1' + i) ∷ [])
digit-row [] i d e = absurd (ground arith)
digit-row (c ∷ []) i d e =
    let bound : (i ≤ 8) × (c ≡ b'1' + i) = ground (arith, eq_iff c b'0') in
    (bound.0, ap (λ x. x ∷ []) bound.1)
digit-row (c ∷ b ∷ s) i d e = absurd (ground arith)

module _ (lower : Text → Text) (hosts : List Host) where
  abbrev pub Shows : State → ℕ → Host → Type 0
  Shows st i h = get_elem? (visible lower hosts st.typed) i ≡ some h

  on_key-row :
      (st : State) (k : Text) (key : Key) (h : Host)
      → key_of k ≡ key
      → on_key lower hosts st k key ≡ done (some h)
      → (i : ℕ) × MeansRow k st i × Shows st i h
  unfolding on_key
  on_key-row st k quit h which e = cc
  on_key-row st k redraw h which e = cc
  on_key-row st k move_up h which e = cc
  on_key-row st k move_down h which e = cc
  on_key-row st k enter h which e =
      let rows = visible lower hosts st.typed in
      let (i, selected, there) =
        at-some rows st.selected h (choose-done (at rows st.selected) st h e) in
      (i, inl (key_of-enter k which, selected), there)
  on_key-row st k erase h which e = cc
  on_key-row st k number h which e =
      let rows = visible lower hosts st.typed in
      let digit = digit_index (first_code k) in
      let (i, indexed, there) = at-some rows digit h (choose-done (at rows digit) st h e) in
      (i, inr (digit-row k i (key_of-number k which) indexed), there)
  on_key-row st k extend h which e = cc
  on_key-row st k ignored h which e = cc

  -- The keys before a choice, the key that makes it, and the row of the list at that moment.
  abbrev pub ChosenFrom : (List Text → Step) → List Text → Host → Type 0
  ChosenFrom steps keys h =
      (before : List Text) × (k : Text) × (after : List Text) × (st : State) × (i : ℕ) × (keys
        ≡ before ++ k ∷ after)
      × (steps before ≡ on st)
      × MeansRow k st i
      × Shows st i h

  run-ChosenFrom :
      (st : State) (keys : List Text) (h : Host)
      → run lower hosts (on st) keys ≡ done (some h)
      → ChosenFrom (run lower hosts (on st)) keys h
  unfolding run on_data
  run-ChosenFrom st [] h e = cc
  run-ChosenFrom st (k ∷ keys) h e =
      by_step (on_key lower hosts st k (key_of k)) refl e (λ s f. run-ChosenFrom s keys h f)
    where
      by_step :
          (step : Step)
          → on_key lower hosts st k (key_of k) ≡ step
          → run lower hosts step keys ≡ done (some h)
          → ((s : State)
              → run lower hosts (on s) keys ≡ done (some h)
              → ChosenFrom (run lower hosts (on s)) keys h)
          → ChosenFrom (run lower hosts (on st)) (k ∷ keys) h
      by_step (done choice) made f later =
          let (i, means, there) = on_key-row st k (key_of k) h refl (made ∙ f) in
          ([], k, keys, st, i, refl, refl, means, there)
      by_step (on s) made f later =
          let (before, j, after, t, i, cut, so_far, means, there) = later s f in
          (
            k ∷ before,
            j,
            after,
            t,
            i,
            ap (λ ks. k ∷ ks) cut,
            ap (λ step. run lower hosts step before) made ∙ so_far,
            means,
            there,
          )

  -- A choice is made by one of the keys: Enter at the selected row, or a digit from 1 to 9, and the
  -- chosen host is the one that the list has in that row, for the filter as the keys before left it.
  pub pick_host-row :
      (keys : List Text) (h : Host)
      → pick_host lower hosts keys ≡ done (some h)
      → ChosenFrom (pick_host lower hosts) keys h
  unfolding pick_host
  pick_host-row keys h e = elim (Bool-cases (length hosts == 0)) [
    | inl empty ↦ absurd (ground arith)
    | inr some_host ↦ rw some_host (
        run-ChosenFrom (render lower hosts (record { typed = []; selected = some 0 })) keys h
          (rw some_host at e))
  ]
