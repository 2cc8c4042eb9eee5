-- ===== src/Inbound/Once.antt =====
-- About handlers/graph_store.go: a Graph message that is stored a second time.
use tempmail.Prelude.{
  ℕ, ◌≡◌, ◌≢◌, ◌∙◌, ◌<◌, refl, sym, ap, subst, Bool, true, false, none, some, List, [], ◌∷◌, ◌++◌,
  Any, Any-append_right, filter, length, is_empty, Bool-cases, inl, inr, arith,
}
use tempmail.Text.{Text, Unicode, same}
use tempmail.Text.Laws.{same_refl, same_eq}
use tempmail.Models.{Time, Message, ok}
use tempmail.Database.{Db, IsRelational}
use tempmail.Recipient.{GraphMessage, find_graph_recipient}
use tempmail.Inbound.{Services, already_stored, graph_message, store_graph_to, store_graph_message}
use tempmail.Inbound.Viewed.{IsGraphMail, DeliveredOnce, store_graph_message-DeliveredOnce}
use tempmail.Mailroom.Tables.{View, open_box, put, addressed}
use tempmail.Mailroom.Statements.{view}

Any-filter :
    (q : Message → Bool) (m : Message) (ms : List Message)
    → Any (λ x. x ≡ m) (filter q ms)
    → Any (λ x. x ≡ m) ms
Any-filter q m [] h = h
Any-filter q m (x ∷ ms) h = elim (Bool-cases (q x)) [
  | inl e ↦ elim (rw e at h) [ inl k ↦ inl k | inr k ↦ inr (Any-filter q m ms k) ]
  | inr e ↦ inr (Any-filter q m ms (rw e at h))
]

-- A list with a message of a Graph identifier has some messages of it.
counted-some :
    (g : Text) (m : Message) (ms : List Message)
    → Any (λ x. x ≡ m) ms
    → m.graph_id ≡ g
    → 0 < length (filter (λ x. same x.graph_id g) ms)
counted-some g m [] h e = absurd h
counted-some g m (x ∷ ms) (inl k) e =
    let hit : same x.graph_id g ≡ true = same_eq (ap (λ (y : Message). y.graph_id) k ∙ e) in
    ground arith
counted-some g m (x ∷ ms) (inr k) e = ground (arith, counted-some g m ms k e)

is_some : (s : Text) → s ≢ [] → is_empty s ≡ false
is_some [] h = absurd (h refl)
is_some (c ∷ s) h = refl

put_here :
    (m : Message) (v : View) → (put m (open_box m.to v)).inbox m.to ≡ (v.inbox m.to ++ m ∷ [])
put_here m v = rw (same_refl m.to) refl

module _ ⦃u : Unicode⦄ {Conn : Type 0} (d : Db Conn) (laws : IsRelational d) (sv : Services) where
  -- A message that was stored is in the table, with the identifier of the Graph message.
  stored_message :
      (domains : List Text) (gm : GraphMessage) (received : Time) (v : View) (t : Conn)
      (m : Message)
      → DeliveredOnce d laws sv
          (IsGraphMail d laws sv domains gm received)
          v
          (ok (some m))
          (view d t)
      → Any (λ x. x ≡ m) (d.messages t) × (m.graph_id ≡ gm.id)
  unfolding graph_message
  stored_message domains gm received v t m ((mb, e), w) =
      let arrived : (view d t).inbox m.to ≡ (v.inbox m.to ++ m ∷ []) =
        ap (λ (x : View). x.inbox m.to) w ∙ put_here m v in
      (
        Any-filter (addressed m.to) m (d.messages t) (
            subst (Any (λ x. x ≡ m)) (sym arrived)
              (Any-append_right (λ x. x ≡ m) (v.inbox m.to) (m ∷ []) (inl refl))),
        ap (λ (x : Message). x.graph_id) e,
      )

  again :
      (domains : List Text) (gm : GraphMessage) (now received : Time) (t : Conn)
      → already_stored d sv gm.id t ≡ true
      → (to : Text) → is_empty to ≡ false
      → store_graph_to d sv gm to now received t ≡ (ok none, t)
  unfolding store_graph_to
  again domains gm now received t e to k = rw (k, e) refl

  counted_again :
      (gm : GraphMessage) (n : ℕ) (m : Message) (t : Conn)
      → gm.id ≢ []
      → Any (λ x. x ≡ m) (d.messages t) × (m.graph_id ≡ gm.id)
      → d.count_graph_id gm.id t ≡ ok n
      → already_stored d sv gm.id t ≡ true
  unfolding already_stored
  counted_again gm n m t some_id (held, same_id) q =
      let found : 0 < n =
        subst (λ k. 0 < k) (sym (laws.graph_counted gm.id t n q))
          (counted-some gm.id m (d.messages t) held same_id) in
      rw (is_some gm.id some_id, q) (ground arith)

  recipient-some :
      (gm : GraphMessage) (to : Text) (now received : Time) (s : Conn) (m : Message)
      → (store_graph_to d sv gm to now received s).0 ≡ ok (some m)
      → is_empty to ≡ false
  unfolding store_graph_to
  recipient-some gm [] now received s m h = absurd (ground arith)
  recipient-some gm (c ∷ to) now received s m h = refl

  -- In a database that meets IsRelational, a Graph message with an identifier that was stored is not
  -- stored a second time: if the query for duplicates succeeds, the call returns no message and no error,
  -- and changes nothing.
  pub store_graph_message-once :
      (domains : List Text) (gm : GraphMessage) (now received later again_received : Time)
      (s : Conn) (m : Message) (n : ℕ)
      → gm.id ≢ []
      → (store_graph_message d sv domains gm now received s).0 ≡ ok (some m)
      → d.count_graph_id gm.id (store_graph_message d sv domains gm now received s).1 ≡ ok n
      → store_graph_message d sv domains gm later again_received
          (store_graph_message d sv domains gm now received s).1
        ≡ (ok none, (store_graph_message d sv domains gm now received s).1)
  unfolding store_graph_message
  store_graph_message-once domains gm now received later again_received s m n some_id h q =
      let to = find_graph_recipient gm domains in
      let t = (store_graph_to d sv gm to now received s).1 in
      let delivered =
        subst
          (λ r.
            DeliveredOnce d laws sv (IsGraphMail d laws sv domains gm received) (view d s) r
              (view d t))
          h (store_graph_message-DeliveredOnce d laws sv domains gm now received s) in
      again domains gm later again_received t
        (counted_again gm n m t some_id
          (stored_message domains gm received (view d s) t m delivered) q)
        to (recipient-some gm to now received s m h)
