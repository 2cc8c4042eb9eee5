-- ===== src/Mailroom/Growth.antt =====
-- An abstract view that has grown: nothing of it is lost.
use tempmail.Prelude.{
  ◌≡◌, ◌∙◌, refl, sym, ap, inl, inr, ◌&&◌, List, [], ◌∷◌, ◌++◌, Bool-cases, arith, append_assoc,
  append-nil,
}
use tempmail.Text.{Text, same}
use tempmail.Models.{Message}
use tempmail.Mailroom.Tables.{View, open_box, put}

-- Open addresses stay open, and each address keeps its messages, in their order and before any others.
pub record Extends (v w : View) : Type 0 where
  pub still_open : (a : Text) → (v.boxes a && w.boxes a) ≡ v.boxes a
  pub kept : (a : Text) → (more : List Message) × (w.inbox a ≡ v.inbox a ++ more)

pub Extends-eq : (v w : View) → w ≡ v → Extends v w
Extends-eq v w e = record {
  still_open = λ a. rw e (ground arith);
  kept = λ a. ([], rw e (sym (append-nil (v.inbox a))));
}

pub Extends-trans : (u v w : View) → Extends u v → Extends v w → Extends u w
Extends-trans u v w h k = record {
  still_open = λ a. ground (arith, h.still_open a, k.still_open a);
  kept = λ a.
      let (xs, e) = h.kept a in
      let (ys, f) = k.kept a in
      (xs ++ ys, f ∙ ap (λ zs. zs ++ ys) e ∙ append_assoc (u.inbox a) xs ys);
}

pub Extends-open_box : (a : Text) (v w : View) → w ≡ open_box a v → Extends v w
Extends-open_box a v w e = record {
  still_open = λ b. rw e (ground arith);
  kept = λ b. ([], rw e (sym (append-nil (v.inbox b))));
}

Extends-put : (m : Message) (v : View) → Extends v (put m v)
Extends-put m v = record {
  still_open = λ a. ground arith;
  kept = λ a. elim (Bool-cases (same m.to a)) [
    | inl e ↦ (m ∷ [], rw e refl)
    | inr e ↦ ([], rw e (sym (append-nil (v.inbox a))))
  ];
}

pub Extends-arrival : (m : Message) (a : Text) (v w : View) → w ≡ put m (open_box a v) → Extends v w
Extends-arrival m a v w e =
    Extends-trans v (open_box a v) w (Extends-open_box a v _ refl)
      (Extends-trans _ _ w (Extends-put m (open_box a v)) (Extends-eq _ w e))
