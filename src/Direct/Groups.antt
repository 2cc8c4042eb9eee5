-- ===== src/Direct/Groups.antt =====
-- About Send of the direct sender in sender/sender.go: the groups of recipients.
use tempmail.Prelude.{
  ◌≡◌, ◌≢◌, refl, sym, some, List, [], ◌∷◌, All, All-append, Any, Any-append_left, Any-append_right,
  Option-cases, inl, inr, arith, if_elim,
}
use tempmail.Text.{Text, Unicode, same, trim_space}
use tempmail.Text.Laws.{same→≡, same_eq}
use tempmail.Models.{ok}
use tempmail.Routing.{Distinct}
use tempmail.Direct.{Group, recipient_domain, add_to, group_recipients}

-- the group of a domain has the recipient
abbrev pub Holds : Text → Text → List Group → Type 0
Holds a domain groups = Any (λ g. (g.domain ≡ domain) × Any (λ x. x ≡ a) g.rcpts) groups

module _ ⦃u : Unicode⦄ where
  -- every recipient of the group is on its domain
  abbrev pub IsSound : Group → Type 0
  IsSound g = All (λ a. recipient_domain a ≡ some g.domain) g.rcpts

  module _ (domain addr : Text) where
    add_to-IsSound :
        (groups : List Group)
        → recipient_domain addr ≡ some domain
        → All IsSound groups
        → All IsSound (add_to domain addr groups)
    unfolding add_to
    add_to-IsSound [] e h = ((e, tt), tt)
    add_to-IsSound (g ∷ groups) e h =
        if_elim (All IsSound) (same g.domain domain)
          (λ k. (All-append _ g.rcpts (addr ∷ []) h.0 (cc (e, same→≡ g.domain domain k), tt), h.1))
          (λ k. (h.0, add_to-IsSound groups e h.1))

    add_to-Holds : (groups : List Group) → Holds addr domain (add_to domain addr groups)
    unfolding add_to
    add_to-Holds [] = inl (refl, inl refl)
    add_to-Holds (g ∷ groups) =
        if_elim (Holds addr domain) (same g.domain domain)
          (λ k. inl (same→≡ g.domain domain k, Any-append_right _ g.rcpts (addr ∷ []) (inl refl)))
          (λ k. inr (add_to-Holds groups))

    add_to-keep :
        (a other : Text) (groups : List Group)
        → Holds a other groups
        → Holds a other (add_to domain addr groups)
    unfolding add_to
    add_to-keep a other [] h = elim h [ ]
    add_to-keep a other (g ∷ groups) (inl (e, h)) =
        if_elim (Holds a other) (same g.domain domain)
          (λ k. inl (e, Any-append_left _ g.rcpts (addr ∷ []) h)) (λ k. inl (e, h))
    add_to-keep a other (g ∷ groups) (inr h) =
        if_elim (Holds a other) (same g.domain domain) (λ k. inr h)
          (λ k. inr (add_to-keep a other groups h))

    add_to-other :
        (d : Text) (groups : List Group)
        → domain ≢ d
        → All (λ g. g.domain ≢ d) groups
        → All (λ g. g.domain ≢ d) (add_to domain addr groups)
    unfolding add_to
    add_to-other d [] ne h = (ne, tt)
    add_to-other d (g ∷ groups) ne h =
        if_elim (All (λ g. g.domain ≢ d)) (same g.domain domain) (λ k. (h.0, h.1))
          (λ k. (h.0, add_to-other d groups ne h.1))

    add_to-Distinct :
        (groups : List Group)
        → Distinct (λ (g : Group). g.domain) groups
        → Distinct (λ (g : Group). g.domain) (add_to domain addr groups)
    unfolding add_to
    add_to-Distinct [] h = (tt, tt)
    add_to-Distinct (g ∷ groups) h =
        if_elim (Distinct (λ (g : Group). g.domain)) (same g.domain domain) (λ k. (h.0, h.1))
          (λ k. (
            add_to-other g.domain groups (λ e. cc (k, same_eq (sym e))) h.0,
            add_to-Distinct groups h.1,
          ))

  -- what the groups made so far have, and the recipients that are in them
  pub record Grouped (to : List Text) (groups : List Group) : Type 0 where
    pub sound : All IsSound groups
    pub distinct : Distinct (λ (g : Group). g.domain) groups
    pub complete :
        All
          (λ raw.
            (domain : Text) × (recipient_domain (trim_space raw) ≡ some domain)
            × Holds (trim_space raw) domain groups)
          to

  group_recipients_from :
      (to : List Text) (before groups : List Group)
      → All IsSound before
      → Distinct (λ (g : Group). g.domain) before
      → group_recipients before to ≡ ok groups
      → Grouped to groups × ((a d : Text) → Holds a d before → Holds a d groups)
  unfolding group_recipients
  group_recipients_from [] before groups sound distinct e =
      let same_groups : before ≡ groups = ground arith in
      rw (← same_groups) (record { sound = sound; distinct = distinct; complete = tt }, λ a d h. h)
  group_recipients_from (raw ∷ to) before groups sound distinct e =
      let addr = trim_space raw in
      elim (Option-cases (recipient_domain addr)) [
        | inl none_of ↦ absurd (ground (arith, none_of))
        | inr (domain, q) ↦
            let (made, kept) =
              group_recipients_from to (add_to domain addr before) groups
                (add_to-IsSound domain addr before q sound)
                (add_to-Distinct domain addr before distinct) (rw (q, group_recipients) at e) in
            (
              record {
                sound = made.sound;
                distinct = made.distinct;
                complete = (
                  (domain, q, kept addr domain (add_to-Holds domain addr before)),
                  made.complete,
                );
              },
              λ a d h. kept a d (add_to-keep domain addr a d before h),
            )
      ]

  -- When no recipient is refused, no two groups share a domain, each group has only recipients on its
  -- domain, and each recipient, trimmed, is in the group of its domain.
  pub group_recipients-Grouped :
      (to : List Text) (groups : List Group)
      → group_recipients [] to ≡ ok groups
      → Grouped to groups
  group_recipients-Grouped to groups e = (group_recipients_from to [] groups tt tt e).0
