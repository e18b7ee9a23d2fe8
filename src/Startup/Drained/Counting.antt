-- ===== src/Startup/Drained/Counting.antt =====
-- A table of crates/queue-sqlite has more rows than mails that were sent before one that waits.
use mathlib.Core.Option
use mathlib.Core.List.{Memᴰ}
use oxid_relay.Prelude.{
  ℕ, ◌<◌, ◌≤◌, ◌≡◌, sym, ap, subst, ◌∙◌, ◌⊎◌, inl, inr, true, some, Option, List, ◌∷◌, count,
  length, All-weaken, arith, ◌==◌, ==_iff, Bool-cases,
}
use oxid_relay.Prelude.Text.{Text, text_eq, text_eq_iff}
use oxid_relay.Message.{Mail, MailId}
use oxid_relay.Queue.Counts.{pick}
use oxid_relay.Queue.Census.{census}
use oxid_relay.Queue.Keyed.{count-find}
use oxid_relay.Queue.Laws.{Delivery, is_waiting}
use oxid_relay.Queue.Refine.Holds.{Holds, uuid_eq, columns}
use oxid_relay.Queue.Row.{Codec, Row}
use oxid_relay.Queue.Row.RoundTrip.{IsCodec}
use oxid_relay.Queue.Sqlite.{find_row, has_id}
use oxid_relay.Queue.Instance.{State}
use oxid_relay.Queue.Instance.Rows.Held.{held_once, held_row}
use oxid_relay.Queue.Instance.Rows.Keys.{IsKeyed}
use oxid_relay.Queue.Instance.Rows.View.{
  find_row-find_by, row_delivery, row_view, status_of, written_status,
}
use oxid_relay.Startup.Delivered.{found_row}
use oxid_relay.Startup.Drained.Passing.{Through, Waits, Passed}

module _ (c : Codec) (k : IsCodec c) where
  zero_or_more : (n : ℕ) → (n ≡ 0) ⊎ (1 ≤ n)
  zero_or_more n = omega arith

  counted :
      (s : State Row) (i : MailId) (d : Delivery Text)
      → row_view c s.table i ≡ some d
      → 1 ≤ count (has_id c i) s.table
  counted s i d known = elim (zero_or_more (count (has_id c i) s.table)) [
    | inr there ↦ there
    | inl missing ↦
        let (r, found, shown) = found_row (find_row c i s.table) d known in
        let nothing : find_row c i s.table ≡ Option.none =
          find_row-find_by c i s.table
          ∙ count-find (λ (x : Row). x.id) text_eq text_eq_iff (c.uuid_to_string i) s.table
              missing in
        absurd (cc)
  ]

  one_id : (r : Row) (i j : MailId) → has_id c i r ≡ true → has_id c j r ≡ true → i ≡ j
  one_id r i j h h' = uuid_eq c k i j (
      sym ((text_eq_iff r.id (c.uuid_to_string i)).0 h)
      ∙ (text_eq_iff r.id (c.uuid_to_string j)).0 h')

  -- The mails that are through and the one that waits are no more than the rows.
  pub Passed-length :
      (m : Mail) (many : ℕ) (s : State Row) → Passed c m many s → many < length s.table
  Passed-length m many s p =
      let (d, known, waiting, time) = p.waits in
      let fresh : count (λ n. n == m.id) p.ids ≡ 0 =
        elim (pick (λ n. n == m.id) (Through c s) p.ids p.through) [
          | inl none_left ↦ none_left
          | inr (i, (d', known', shown, fine), hit) ↦
              let same : some d' ≡ some d =
                sym (
                  subst (λ (j : MailId). row_view c s.table j ≡ some d') ((==_iff i m.id).0 hit)
                    known')
                ∙ known in
              absurd (ground (arith, same))
        ] in
      let room : length (m.id ∷ p.ids) ≤ length s.table =
        census (has_id c) one_id s.table (m.id ∷ p.ids) (λ i. keys_once i d fresh)
          (
            counted s m.id d known,
            All-weaken (Through c s) (λ i. 1 ≤ count (has_id c i) s.table)
                (λ i (d', known', shown, fine). counted s i d' known') p.ids p.through,
          ) in
      omega (arith, room, p.enough)
    where
      keys_once :
          (i : MailId) (d : Delivery Text)
          → count (λ n. n == m.id) p.ids ≡ 0
          → count (λ n. n == i) (m.id ∷ p.ids) ≤ 1
      keys_once i d fresh = elim (Bool-cases (m.id == i)) [
        | inl hit ↦
            let gone : count (λ n. n == i) p.ids ≡ 0 =
              subst (λ (j : MailId). count (λ n. n == j) p.ids ≡ 0) ((==_iff m.id i).0 hit) fresh in
            rw hit (omega (arith, gone))
        | inr miss ↦ rw miss (omega (arith, p.once i))
      ]

  pub held-Waits :
      (m : Mail) (s : State Row) (ms : List Mail)
      → IsKeyed c s.table
      → Holds c s.table ms
      → Memᴰ m ms
      → is_waiting m.status ≡ true
      → Waits c m s
  held-Waits m s ms keyed held here waiting =
      let (r, found, stored) =
        held_row c k m s.table ms (held_once c k m.id s.table ms keyed held) held here in
      let cols = columns c m r stored in
      (
        row_delivery r,
        ap (Option.map row_delivery) found,
        rw (ap status_of cols.status ∙ written_status m.status) waiting,
        cols.next_attempt_at,
      )
