-- ===== src/Host/Peers/Privacy.antt =====
-- peerStatus of nodejs/utils/wg_iface.js, and the interface's line, which holds the private key.
use jump_host.Base.{
  ℕ, ◌≡◌, refl, sym, ap, ◌∙◌, ◌⊎◌, inl, inr, false, List, [], ◌∷◌, ◌++◌, if◌then◌else◌, Bool-cases,
  nat_eq, text_eq, ok, drop, Text, split, Lacks, split_of_Lacks, split-append,
}
use jump_host.Host.Peers.{trim_end, trim, read_statuses, statuses}
use jump_host.Mesh.Exits.Readback.{is_space, span}

trim_end-cons : (c : ℕ) (s : Text) → is_space c ≡ false → trim_end (c ∷ s) ≡ c ∷ trim_end s
unfolding trim_end
trim_end-cons c s h = by_rest (trim_end s)
  where
    by_rest :
        (t : Text) → (elim t [ [] ↦ if is_space c then [] else c ∷ [] | d ∷ u ↦ c ∷ d ∷ u ]) ≡ c ∷ t
    by_rest [] = rw h
    by_rest (d ∷ u) = refl

-- What follows a text that is cut down to itself, or to nothing.
trim_end-append_nonempty :
    (s t : Text) (d : ℕ) (u : Text) → trim_end t ≡ d ∷ u → trim_end (s ++ t) ≡ s ++ trim_end t
unfolding trim_end
trim_end-append_nonempty [] t d u e = refl
trim_end-append_nonempty (c ∷ s) t d u e =
    let ih = trim_end-append_nonempty s t d u e in by_front s (rw e at ih)
  where
    by_front :
        (s : Text)
        → trim_end (s ++ t) ≡ s ++ d ∷ u
        → trim_end (c ∷ (s ++ t)) ≡ c ∷ (s ++ trim_end t)
    by_front [] ih = rw (e, trim_end) refl
    by_front (b ∷ s) ih = rw (e, ih) refl

trim_end-append_empty : (s t : Text) → trim_end t ≡ [] → trim_end (s ++ t) ≡ trim_end s
unfolding trim_end
trim_end-append_empty [] t e = e
trim_end-append_empty (c ∷ s) t e = rw (trim_end-append_empty s t e)

trim_end-Lacks : (c : ℕ) (s : Text) → Lacks c s → Lacks c (trim_end s)
unfolding trim_end
trim_end-Lacks c [] h = tt
trim_end-Lacks c (d ∷ s) (h, hs) = by_rest (trim_end s) (trim_end-Lacks c s hs)
  where
    by_rest :
        (t : Text)
        → Lacks c t
        → Lacks c (elim t [ [] ↦ if is_space d then [] else d ∷ [] | b ∷ u ↦ d ∷ b ∷ u ])
    by_rest [] k = elim (Bool-cases (is_space d)) [ inl e ↦ rw e tt | inr e ↦ rw e (h, tt) ]
    by_rest (b ∷ u) k = (h, k)

-- The lines after the first one, from what follows the first newline.
abbrev lines_after : Text → List Text
lines_after t = elim t [ [] ↦ [] | _ ∷ u ↦ split 10 u ]

trim-keeps_front :
    (c : ℕ) (s t : Text) → is_space c ≡ false → trim ((c ∷ s) ++ t) ≡ trim_end ((c ∷ s) ++ t)
unfolding span
trim-keeps_front c s t h = rw h

trim_end_newline :
    (rest : Text) (t : Text) → trim_end (10 ∷ rest) ≡ t → (t ≡ []) ⊎ ((u : Text) × (t ≡ 10 ∷ u))
unfolding trim_end
trim_end_newline rest t e = by_rest (trim_end rest) e
  where
    by_rest :
        (r : Text)
        → (elim r [ [] ↦ if is_space 10 then [] else 10 ∷ [] | d ∷ u ↦ 10 ∷ d ∷ u ]) ≡ t
        → (t ≡ []) ⊎ ((u : Text) × (t ≡ 10 ∷ u))
    by_rest [] k = inl (sym k)
    by_rest (d ∷ u) k = inr (d ∷ u, sym k)

peer_lines :
    (c : ℕ) (s rest : Text)
    → is_space c ≡ false
    → Lacks 10 (c ∷ s)
    → drop 1 (split 10 (trim ((c ∷ s) ++ 10 ∷ rest))) ≡ lines_after (trim_end (10 ∷ rest))
peer_lines c s rest h bare =
    rw (trim-keeps_front c s (10 ∷ rest) h)
      (elim (trim_end_newline rest (trim_end (10 ∷ rest)) refl) [
        | inl empty ↦
            rw (trim_end-append_empty (c ∷ s) (10 ∷ rest) empty, empty)
              (ap (drop 1) (split_of_Lacks 10 (trim_end (c ∷ s)) (trim_end-Lacks 10 (c ∷ s) bare)))
        | inr (u, full) ↦
            rw (trim_end-append_nonempty (c ∷ s) (10 ∷ rest) 10 u full, full)
              (ap (drop 1) (split-append 10 (c ∷ s) u bare))
      ])

-- Two dumps that differ only in the first line, the interface's with its private key, give the same
-- statuses: what `peerStatus` returns does not depend on that line. A first line holds no newline and
-- does not begin with white space.
pub statuses_ignore_key :
    (now : ℕ) (c d : ℕ) (s t rest : Text)
    → is_space c ≡ false
    → is_space d ≡ false
    → Lacks 10 (c ∷ s)
    → Lacks 10 (d ∷ t)
    → statuses now (ok ((c ∷ s) ++ 10 ∷ rest)) ≡ statuses now (ok ((d ∷ t) ++ 10 ∷ rest))
unfolding statuses
statuses_ignore_key now c d s t rest hc hd bare bare' =
    ap (λ lines. read_statuses now lines [])
      (peer_lines c s rest hc bare ∙ sym (peer_lines d t rest hd bare'))
