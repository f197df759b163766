-- ===== src/Host/Wg/Examples.antt =====
-- An interface that holds one address or none, and two dumps of an interface.
use jump_host.Base.{
  ◌≡◌, refl, sym, ◌∙◌, ◌↔◌, inl, inr, Bool, true, false, not, ◌&&◌, none, List, [], ◌∷◌, ◌++◌,
  arith, if◌then◌else◌, Bool-cases, ◌==◌, eq_iff, nat_eq, text_eq, text_beq, ok, err, all, In, Text,
  text, split, Lacks, starts_with, index_of,
}
use jump_host.Host.Shell.{Reply, Failure, Gateway}
use jump_host.Host.Wg.{System, set_addresses}
use jump_host.Host.Wg.Shown.{ShowsLines}
use jump_host.Host.Wg.Loops.{
  AddressLaws, AddsAddress, DeletesAddress, show_args, add_args, del_args, up_args,
}
use jump_host.Host.Wg.Addresses.{HoldsWanted, set_addresses-HoldsWanted}
use jump_host.Directory.Target.{includes}
use jump_host.Host.Peers.{statuses}
use jump_host.Host.Peers.Privacy.{statuses_ignore_key}
use jump_host.Host.Uplink.{is_private_ipv4, detect_resolver}
use jump_host.Host.Uplink.Laws.{
  IsPrivate, is_private_ipv4_iff, ReturnsPrivate, detect_resolver-ReturnsPrivate,
}

abbrev own : Text
own = text "10.4.0.1/16"

-- Whether the address is held.
abbrev held : Bool → List Text
held true = own ∷ []
held false = []

abbrev line : Text
line = text "7: wg0    inet 10.4.0.1/16 scope global wg0"

abbrev refusal : Text → Failure
refusal message = record { message = message; missing = false }

on_args : List Text → Bool → Reply × Bool
on_args (t ∷ verb ∷ cidr ∷ rest) w =
    if t == text "-o"
    then (ok (if w then line ++ 10 ∷ [] else []), w)
    else if t == text "addr" && verb == text "add"
    then (if cidr == own then (ok [], true) else (err (refusal (text "no")), w))
    else if t == text "addr" && verb == text "del"
    then (if cidr == own then (ok [], false) else (err (refusal (text "no")), w))
    else (ok [], w)
on_args _ w = (ok [], w)

abbrev system : System Bool
system = record {
  exec = λ cmd args w. on_args args w;
  spawn = λ cmd args w. (1, w);
  write_file = λ path content w. (ok tt, w);
  unlink = λ path w. (ok tt, w);
}

shown : (w : Bool) → ShowsLines (held w) (split 10 (if w then line ++ 10 ∷ [] else []))
unfolding split starts_with
shown true = (
  (
    text "7:",
    text "wg0",
    b'1',
    text "0.4.0.1/16",
    text "scope global wg0",
    (refl, (refl, tt)),
    (refl, (refl, (refl, tt))),
    refl,
    refl,
    (refl, (refl, (refl, (refl, (refl, (refl, (refl, (refl, (refl, (refl, (refl, tt))))))))))),
    refl,
  ),
  refl,
)
shown false = refl

show-eq :
    (name : Text) (w : Bool)
    → on_args (show_args name) w ≡ (ok (if w then line ++ 10 ∷ [] else []), w)
unfolding on_args text_beq
show-eq name w = refl

add-eq :
    (cidr name : Text) (w : Bool)
    → on_args (add_args cidr name) w
      ≡ (if cidr == own then (ok [], true) else (err (refusal (text "no")), w))
unfolding on_args text_beq
add-eq cidr name w = refl

del-eq :
    (cidr name : Text) (w : Bool)
    → on_args (del_args cidr name) w
      ≡ (if cidr == own then (ok [], false) else (err (refusal (text "no")), w))
unfolding on_args text_beq
del-eq cidr name w = refl

up-eq : (name : Text) (w : Bool) → on_args (up_args name) w ≡ (ok [], w)
unfolding on_args text_beq
up-eq name w = refl

not_there : includes (text "no") (text "File exists") ≡ true → ⊥
unfolding index_of starts_with
not_there h = ground arith

adds : (cidr name : Text) (w : Bool) → AddsAddress held cidr w (on_args (add_args cidr name) w)
unfolding text_beq
adds cidr name w = rw (add-eq cidr name w) (elim (Bool-cases (cidr == own)) [
  | inl t ↦ rw t (own_added cidr w ((eq_iff cidr own).0 t))
  | inr n ↦ rw n ((λ h. absurd (exists_not h)), refl)
])
  where
    own_added : (c : Text) (v : Bool) → c ≡ own → AddsAddress held c v (ok [], true)
    own_added c true e = λ a. (λ m. inr m, λ s. elim s [ inl k ↦ inl (k ∙ e) | inr k ↦ k ])
    own_added c false e = λ a. (
      λ m. elim m [ inl k ↦ inl (k ∙ sym e) | inr no_more ↦ absurd no_more ],
      λ s. elim s [ inl k ↦ inl (k ∙ e) | inr no_one ↦ absurd no_one ],
    )

    exists_not : includes (text "no") (text "File exists") ≡ true → ⊥
    exists_not h = not_there h

deletes :
    (cidr name : Text) (w : Bool)
    → DeletesAddress held (λ a c. ⊥) cidr w (on_args (del_args cidr name) w)
deletes cidr name w = rw (del-eq cidr name w) (elim (Bool-cases (cidr == own)) [
  | inl t ↦ rw t (
    (λ no_one. absurd no_one),
    (λ a no_one. absurd no_one),
    (λ a m differs _. differs (is_own a w m ∙ sym ((eq_iff cidr own).0 t))),
  )
  | inr n ↦ rw n refl
])
  where
    is_own : (a : Text) (v : Bool) → In a (held v) → a ≡ own
    is_own a true m = elim m [ inl k ↦ k | inr no_more ↦ absurd no_more ]
    is_own a false m = absurd m

addresses : AddressLaws system.exec held (λ a c. ⊥) (text "wg0")
addresses = record {
  show = λ w. ((if w then line ++ 10 ∷ [] else []), rw (show-eq (text "wg0") w) refl, shown w);
  show_keeps = λ w. rw (show-eq (text "wg0") w) refl;
  add = λ cidr w. adds cidr (text "wg0") w;
  del = λ cidr w. deletes cidr (text "wg0") w;
  up_keeps = λ w. rw (up-eq (text "wg0") w) refl;
}

abbrev idle : Gateway Bool
idle = record { world = false; tool_cache = none; kernel_support = none; probes = [] }

set_addresses-HoldsWanted_example :
    HoldsWanted system held
      (λ a c. ⊥)
      (text "wg0")
      addresses
      (own ∷ [])
      false
      (set_addresses system (text "wg0") (own ∷ []) idle)
set_addresses-HoldsWanted_example =
    set_addresses-HoldsWanted system held (λ a c. ⊥) (text "wg0") addresses (own ∷ []) idle

one_line : (s : Text) → all (λ d. not (d == 10)) s ≡ true → Lacks 10 s
unfolding all
one_line [] h = tt
one_line (c ∷ s) h = (ground arith, one_line s (ground arith))

statuses_ignore_key_example :
    statuses 100 (
      ok (
        text "secret\tpub\t51820\toff"
        ++ 10 ∷ text "k6\t(none)\tnyc:51820\t10.6.0.0/16\t90\t5\t6\t25"))
    ≡ statuses 100 (
        ok (
          text "other\tpub\t51820\toff"
          ++ 10 ∷ text "k6\t(none)\tnyc:51820\t10.6.0.0/16\t90\t5\t6\t25"))
unfolding all
statuses_ignore_key_example =
    statuses_ignore_key 100 b's' b'o' (text "ecret\tpub\t51820\toff") (text "ther\tpub\t51820\toff")
      (text "k6\t(none)\tnyc:51820\t10.6.0.0/16\t90\t5\t6\t25") refl refl
      (one_line (text "secret\tpub\t51820\toff") refl)
      (one_line (text "other\tpub\t51820\toff") refl)

is_private_ipv4_iff_example :
    (is_private_ipv4 (text "172.20.0.1") ≡ true) ↔ IsPrivate (text "172.20.0.1")
is_private_ipv4_iff_example = is_private_ipv4_iff (text "172.20.0.1")

detect_resolver-ReturnsPrivate_example : ReturnsPrivate (detect_resolver system.exec idle)
detect_resolver-ReturnsPrivate_example = detect_resolver-ReturnsPrivate system.exec idle
