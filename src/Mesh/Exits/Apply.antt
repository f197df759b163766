-- ===== src/Mesh/Exits/Apply.antt =====
-- nodejs/services/exit_router.js: the rules that applyExits removes and adds.
use jump_host.Base.{
  ◌≡◌, refl, sym, ap, ap₂, ◌∙◌, ◌↔◌, inl, inr, Bool, false, not, ◌&&◌, List, [], ◌∷◌, ◌++◌, map,
  Option, none, some, ℕ, all, is_digit, all_iff, arith, if◌then◌else◌, Bool-cases, ◌==◌, eq_iff,
  nat_eq, text_eq, any, filter, In, All, Text, split, join, Lacks, split-append, join-split,
  In-filter,
}
use jump_host.Base.Decimal.{decimal, value, AllDigits}
use jump_host.Mesh.Exits.{Rule}
use jump_host.Mesh.Exits.Readback.{Installed}

-- The two commands, `ip rule del` and `ip rule add`.
pub data Command : Type 0 where
  del_rule : Installed → Command
  add_rule : Rule → Command

-- `wantedRules.has(…)`: both keys are built with the same bar between the address and the table.
unfoldable pub wanted : List Rule → Installed → Bool
wanted rules r = any (λ p. (p.from ++ b'|' ∷ decimal p.table) == (r.from ++ b'|' ∷ r.table)) rules

-- `Number(r.table)`, where the rules that are read back name their table by digits or by a word, which
-- is NaN.
abbrev pub table_number : Text → Option ℕ
table_number t = if all is_digit t then some (value t) else none

abbrev pub is_table : Option ℕ → ℕ → Bool
is_table none n = false
is_table (some m) n = m == n

-- `installed.some(…)`
unfoldable pub present : List Installed → Rule → Bool
present installed p =
    any (λ r. r.from == p.from && is_table (table_number r.table) p.table) installed

unfoldable pub removals : List Rule → List Installed → List Command
removals rules [] = []
removals rules (r ∷ rs) =
    let rest = removals rules rs in if wanted rules r then rest else del_rule r ∷ rest

unfoldable pub additions : List Installed → List Rule → List Command
additions installed [] = []
additions installed (p ∷ ps) =
    let rest = additions installed ps in if present installed p then rest else add_rule p ∷ rest

-- The two loops, on the rules that were read back before them.
unfoldable pub rule_commands : List Rule → List Installed → List Command
rule_commands rules installed = removals rules installed ++ additions installed rules

-- The installed rule is the planned one: the same address and the same table.
abbrev pub Serves : Rule → Installed → Type 0
Serves p r = (p.from ≡ r.from) × (decimal p.table ≡ r.table)

-- The installed rule sends the planned address to the planned table, in digits.
abbrev pub Sends : Rule → Installed → Type 0
Sends p r = (r.from ≡ p.from) × AllDigits r.table × (value r.table ≡ p.table)

-- Texts with a bar after a front that holds none are equal in both parts.
bar-parts :
    (a b s t : Text)
    → Lacks b'|' a
    → Lacks b'|' b
    → a ++ b'|' ∷ s ≡ b ++ b'|' ∷ t
    → (a ≡ b) × (s ≡ t)
bar-parts a b s t ha hb e =
    let cut : a ∷ split b'|' s ≡ b ∷ split b'|' t =
      sym (split-append b'|' a s ha) ∙ ap (split b'|') e ∙ split-append b'|' b t hb in
    let heads : a ≡ b = cc in
    let tails : split b'|' s ≡ split b'|' t = cc in
    (heads, sym (join-split b'|' s) ∙ ap (join b'|') tails ∙ join-split b'|' t)

wanted-false :
    (rules : List Rule) (r : Installed)
    → Lacks b'|' r.from
    → All (λ p. Lacks b'|' p.from) rules
    → (wanted rules r ≡ false) ↔ All (λ p. Serves p r → ⊥) rules
unfolding wanted any
wanted-false [] r hr hs = ((λ _. tt), (λ _. refl))
wanted-false (p ∷ rules) r hr (hp, hs) =
    let rest = wanted-false rules r hr hs in
    let parts = bar-parts p.from r.from (decimal p.table) r.table hp hr in
    let key = eq_iff (p.from ++ b'|' ∷ decimal p.table) (r.from ++ b'|' ∷ r.table) in
    elim (Bool-cases ((p.from ++ b'|' ∷ decimal p.table) == (r.from ++ b'|' ∷ r.table))) [
      | inl hit ↦ ((λ h. absurd (ground arith)), (λ (n, _). absurd (n (parts (key.0 hit)))))
      | inr miss ↦ rw miss (
        (λ h. (
          (λ (e, t). let same = key.1 (ap₂ (λ x y. x ++ b'|' ∷ y) e t) in absurd (ground arith)),
          rest.0 h,
        )),
        (λ (_, ns). rest.1 ns),
      )
    ]

present-false :
    (installed : List Installed) (p : Rule)
    → (present installed p ≡ false) ↔ All (λ r. Sends p r → ⊥) installed
unfolding present any
present-false [] p = ((λ _. tt), (λ _. refl))
present-false (r ∷ rs) p =
    let rest = present-false rs p in
    let digits = all_iff is_digit r.table in
    let from = eq_iff r.from p.from in
    let table = eq_iff (value r.table) p.table in
    elim (Bool-cases (r.from == p.from)) [
      | inr elsewhere ↦ rw elsewhere (
        (λ h. ((λ (e, _, _). let same = from.1 e in absurd (ground arith)), rest.0 h)),
        (λ (_, ns). rest.1 ns),
      )
      | inl here ↦ elim (Bool-cases (all is_digit r.table)) [
        | inr word ↦
            rw (here, word)
              (
                (λ h. ((λ (_, d, _). let same = digits.1 d in absurd (ground arith)), rest.0 h)),
                (λ (_, ns). rest.1 ns),
              )
        | inl number ↦ elim (Bool-cases (value r.table == p.table)) [
          | inr other ↦
              rw (here, number, other)
                (
                  (λ h. ((λ (_, _, e). let same = table.1 e in absurd (ground arith)), rest.0 h)),
                  (λ (_, ns). rest.1 ns),
                )
          | inl hit ↦
              rw (here, number, hit)
                (
                  (λ h. absurd (ground arith)),
                  (λ (n, _). absurd (n (from.0 here, digits.0 number, table.0 hit))),
                )
        ]
      ]
    ]

removals-filter :
    (rules : List Rule) (installed : List Installed)
    → removals rules installed ≡ map del_rule (filter (λ r. not (wanted rules r)) installed)
unfolding removals filter
removals-filter rules [] = refl
removals-filter rules (r ∷ rs) = ground (arith, removals-filter rules rs)

additions-filter :
    (installed : List Installed) (rules : List Rule)
    → additions installed rules ≡ map add_rule (filter (λ p. not (present installed p)) rules)
unfolding additions filter
additions-filter installed [] = refl
additions-filter installed (p ∷ ps) = ground (arith, additions-filter installed ps)

In-dels :
    (d : Installed) (ds : List Installed) (ps : List Rule)
    → In (del_rule d) (map del_rule ds ++ map add_rule ps) ↔ In d ds
In-dels d [] [] = ((λ m. m), (λ m. m))
In-dels d [] (p ∷ ps) =
    let rest = In-dels d [] ps in
    ((λ m. elim m [ inl e ↦ absurd (ground arith) | inr k ↦ rest.0 k ]), (λ m. absurd m))
In-dels d (c ∷ ds) ps =
    let rest = In-dels d ds ps in
    (
      (λ m. elim m [ inl e ↦ inl cc | inr k ↦ inr (rest.0 k) ]),
      (λ m. elim m [ inl e ↦ inl (ap del_rule e) | inr k ↦ inr (rest.1 k) ]),
    )

In-adds :
    (p : Rule) (ds : List Installed) (ps : List Rule)
    → In (add_rule p) (map del_rule ds ++ map add_rule ps) ↔ In p ps
In-adds p [] [] = ((λ m. m), (λ m. m))
In-adds p [] (q ∷ ps) =
    let rest = In-adds p [] ps in
    (
      (λ m. elim m [ inl e ↦ inl cc | inr k ↦ inr (rest.0 k) ]),
      (λ m. elim m [ inl e ↦ inl (ap add_rule e) | inr k ↦ inr (rest.1 k) ]),
    )
In-adds p (d ∷ ds) ps =
    let rest = In-adds p ds ps in
    ((λ m. elim m [ inl e ↦ absurd (ground arith) | inr k ↦ rest.0 k ]), (λ m. inr (rest.1 m)))

In-left :
    {A : Type 0} (skip : A → Bool) (xs : List A) (a : A)
    → In a (filter (λ x. not (skip x)) xs) ↔ (In a xs × (skip a ≡ false))
In-left skip xs a = ground (arith, In-filter (λ x. not (skip x)) xs a)

-- Where no address holds a bar: a rule is removed exactly if it is installed and serves no rule of
-- the plan, and a rule is added exactly if it is planned and no installed rule sends its address to its
-- table.
pub rule_commands_iff :
    (rules : List Rule) (installed : List Installed) (d : Installed) (p : Rule)
    → Lacks b'|' d.from
    → All (λ q. Lacks b'|' q.from) rules
    → (In (del_rule d) (rule_commands rules installed)
        ↔ (In d installed × All (λ q. Serves q d → ⊥) rules))
      × (In (add_rule p) (rule_commands rules installed)
          ↔ (In p rules × All (λ r. Sends p r → ⊥) installed))
unfolding rule_commands
rule_commands_iff rules installed d p bare bars =
    let split_up =
      ap₂ (◌++◌) (removals-filter rules installed) (additions-filter installed rules) in
    let dels = In-dels d _ (filter (λ q. not (present installed q)) rules) in
    let adds = In-adds p (filter (λ r. not (wanted rules r)) installed) _ in
    let gone = In-left (wanted rules) installed d in
    let new = In-left (present installed) rules p in
    let unwanted = wanted-false rules d bare bars in
    let absent = present-false installed p in
    rw split_up (
      (
        (λ m. let (i, w) = gone.0 (dels.0 m) in (i, unwanted.0 w)),
        (λ (i, n). dels.1 (gone.1 (i, unwanted.1 n))),
      ),
      (
        (λ m. let (planned, there) = new.0 (adds.0 m) in (planned, absent.0 there)),
        (λ (planned, none_there). adds.1 (new.1 (planned, absent.1 none_there))),
      ),
    )
